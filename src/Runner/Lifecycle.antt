-- ===== src/Runner/Lifecycle.antt =====
-- What the Runner does with a VM (vm/vm.go: Run, waitOrBackground, Destroy, Snapshot, Restore, and
-- the port forwards). The log is left out.
pub mod Saved
pub mod Unrecorded
pub mod Own
pub mod Total
use firecracker_lab.Prelude.{
  Text, codes, ℕ, ℤ, Bool, true, false, Option, none, some, List, [], ◌∷◌, ◌++◌, ◌==◌, text_eq,
  if◌then◌else◌,
}
use firecracker_lab.Agent.{Codec, notify_restore, start_proxy}
use firecracker_lab.FilePath.{join}
use firecracker_lab.State.Vms.{Vm}
use firecracker_lab.World.{
  mkdir_all, remove_all, Host, Wakeup, exited, signalled, console_done, Error, message, Result, ok,
  err, World, Action, ⊤, pure, raise, attempt, wrapping, gets, call, nap, for_each, ◌>>=◌, ◌>>◌,
}
use firecracker_lab.Runner.{
  Runner, NetworkProvisioner, VmSupervisor, PortForwarder, vm_dir, socket_path, vsock_path,
}
use firecracker_lab.Runner.Api.{
  api_put, api_patch, boot_vm, wait_for_socket, halt_body, pause_body, create_body, load_body,
}
use firecracker_lab.Runner.Systemd.{net, supervisor, port_forwarder}
use firecracker_lab.Runner.Chroot.{setup_chroot, setup_restore_chroot, copy_out, snapshot_files}

-- What the goroutine around `Wait` sends: an error of `Wait`, or of a unit that failed.
pub unit_outcome : Text → Option Text → Result ⊤
unit_outcome unit none = err (message (codes "systemctl show " ++ unit))
unit_outcome unit (some state) =
    if state == codes "failed"
    then err (message (codes "unit " ++ (unit ++ codes " exited in failed state")))
    else ok tt

-- The inner `select`: the outcome of the unit, if it is ready.
pub detached : Text → Option (Option Text) → Result ⊤
unfolding unit_outcome
detached unit none = ok tt
detached unit (some outcome) = unit_outcome unit outcome

module _ (host : Host) (codec : Codec) (r : Runner) where
  -- `waitOrBackground`: attached, the outcome is that of the channel which is ready first. The two
  -- goroutines, with the calls of `wait` and attach_console, run beside the action and are not in its
  -- log: the host says what they send.
  after_wakeup : Vm → Wakeup → Action ⊤
  unfolding unit_outcome detached
  after_wakeup vm (exited outcome) w = (unit_outcome vm.unit outcome, w)
  after_wakeup vm signalled w = (do attempt ((supervisor host r).stop vm); pure tt) w
  after_wakeup vm (console_done true ready) w = raise (message (codes "console")) w
  after_wakeup vm (console_done false ready) w = (detached vm.unit ready, w)

  unfoldable pub wait_or_background : Vm → Bool → Action ⊤
  unfolding after_wakeup
  wait_or_background vm false = pure tt
  wait_or_background vm true = do event ← gets (λ w. host.wakeup w.log); after_wakeup vm event

  unfoldable pub launch_port_forwards : Vm → Action ⊤
  launch_port_forwards vm = for_each vm.ports ((port_forwarder host r).launch vm)

  unfoldable pub stop_port_forwards : Vm → Action ⊤
  stop_port_forwards vm = for_each vm.ports ((port_forwarder host r).stop vm.id)

  unfoldable pub restart_port_forwards : Vm → Action ⊤
  restart_port_forwards vm = for_each vm.ports ((port_forwarder host r).restart vm.id)

  -- A failure of a guest-side proxy is only logged.
  unfoldable pub start_guest_port_proxies : Vm → Action ⊤
  start_guest_port_proxies vm =
      for_each vm.ports
        λ port. do attempt (start_proxy host codec (vsock_path r vm.id) port); pure tt

  unfoldable pub await_api : Vm → Action ⊤
  await_api vm =
      wrapping (codes "socket never appeared at " ++ socket_path r vm.id)
        (wait_for_socket host (socket_path r vm.id) 5000)

  -- `Runner.Run`
  unfoldable pub run_vm : Vm → Text → Bool → Action ⊤
  run_vm vm image attach = do
    setup_chroot host r vm image
    (net host r).setup_tap vm
    (supervisor host r).launch vm
    await_api vm
    boot_vm host vm (socket_path r vm.id)
    launch_port_forwards vm
    start_guest_port_proxies vm
    wait_or_background vm attach

  -- The end that `Destroy` and `Snapshot` share.
  unfoldable pub tear_down : Vm → Action ⊤
  tear_down vm = do
    (supervisor host r).stop vm
    stop_port_forwards vm
    (net host r).teardown_tap vm
    call host (remove_all (vm_dir r vm.id))

  unfoldable pub destroy : Vm → Action ⊤
  destroy vm = do
    attempt (api_put host (socket_path r vm.id) (codes "/actions") halt_body)
    nap 500
    tear_down vm

  -- Pausing the VM, saving it, and copying the files out.
  unfoldable pub save : Vm → Text → Action ⊤
  save vm dir = do
    api_patch host (socket_path r vm.id) (codes "/vm") pause_body
    api_put host (socket_path r vm.id) (codes "/snapshot/create") create_body
    wrapping (codes "mkdir snapshot dir") (call host (mkdir_all dir))
    for_each snapshot_files (copy_out host r vm.id dir)

  -- `Runner.Snapshot`
  unfoldable pub snapshot : Vm → Text → Action ⊤
  snapshot vm dir = do save vm dir; tear_down vm

  -- `Runner.Restore`
  unfoldable pub restore : Vm → Text → Bool → Action ⊤
  restore vm dir attach = do
    setup_restore_chroot host r vm dir
    (net host r).setup_tap vm
    (supervisor host r).launch vm
    await_api vm
    api_put host (socket_path r vm.id) (codes "/snapshot/load") (load_body vm)
    attempt (notify_restore host codec (vsock_path r vm.id))
    launch_port_forwards vm
    start_guest_port_proxies vm
    wait_or_background vm attach

  unfoldable pub is_alive : Vm → Action Bool
  is_alive vm = (supervisor host r).is_alive vm

  unfoldable pub port_forward_alive : Text → ℤ → Action Bool
  port_forward_alive id port = (port_forwarder host r).is_alive id port
