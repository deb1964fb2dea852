-- ===== src/Runner/Lifecycle/Unrecorded.antt =====
-- The operations of a Runner that uses the host's own tools do not touch the state database.
use firecracker_lab.Prelude.{Text, ℤ, Bool, true, false, ◌≡◌, ap, none, some}
use firecracker_lab.Agent.{Codec}
use firecracker_lab.Agent.Unrecorded.{notify_restore-Keeps, start_proxy-Keeps}
use firecracker_lab.State.Vms.{Vm}
use firecracker_lab.World.{Host, Wakeup, exited, signalled, console_done}
use firecracker_lab.World.Total.{IsTotal}
use firecracker_lab.World.Keeps.{Keeps, keeping}
use firecracker_lab.Runner.{Runner}
use firecracker_lab.Runner.Api.Unrecorded.{
  api_put-Keeps, api_patch-Keeps, boot_vm-Keeps, wait_for_socket-Keeps,
}
use firecracker_lab.Runner.Systemd.{
  net, supervisor, port_forwarder, iproute2_network_provisioner, systemd_supervisor,
  systemd_port_forwarder,
}
use firecracker_lab.Runner.Systemd.Unrecorded.{
  is_active-IsTotal, setup_tap-Keeps, teardown_tap-Keeps, launch-Keeps, stop-Keeps, is_alive-Keeps,
  launch_forward-Keeps, stop_forward-Keeps, restart_forward-Keeps, forward_alive-Keeps,
}
use firecracker_lab.Runner.Chroot.Unrecorded.{
  setup_chroot-Keeps, setup_restore_chroot-Keeps, copy_out-Keeps,
}
use firecracker_lab.Runner.Lifecycle.{
  after_wakeup, wait_or_background, launch_port_forwards, stop_port_forwards, restart_port_forwards,
  start_guest_port_proxies, await_api, run_vm, tear_down, destroy, save, snapshot, restore,
  is_alive, port_forward_alive,
}

-- No interface is replaced, as in every Runner that a command builds.
pub record IsReal (r : Runner) : Type 0 where
  pub net_eq : r.net ≡ none
  pub supervisor_eq : r.supervisor ≡ none
  pub forwarder_eq : r.forwarder ≡ none

module _ (host : Host) (codec : Codec) (r : Runner) (real : IsReal r) where
  pub net_real : net host r ≡ iproute2_network_provisioner host
  unfolding net
  net_real = ap (λ n. elim n [ none ↦ iproute2_network_provisioner host | some n ↦ n ]) real.net_eq

  pub supervisor_real : supervisor host r ≡ systemd_supervisor host r
  unfolding supervisor
  supervisor_real =
      ap (λ s. elim s [ none ↦ systemd_supervisor host r | some s ↦ s ]) real.supervisor_eq

  pub port_forwarder_real : port_forwarder host r ≡ systemd_port_forwarder host r
  unfolding port_forwarder
  port_forwarder_real =
      ap (λ f. elim f [ none ↦ systemd_port_forwarder host r | some f ↦ f ]) real.forwarder_eq

  setup-Keeps : (vm : Vm) → Keeps ((net host r).setup_tap vm)
  setup-Keeps vm = rw net_real (setup_tap-Keeps host r vm)

  teardown-Keeps : (vm : Vm) → Keeps ((net host r).teardown_tap vm)
  teardown-Keeps vm = rw net_real (teardown_tap-Keeps host r vm)

  launch_vm-Keeps : (vm : Vm) → Keeps ((supervisor host r).launch vm)
  launch_vm-Keeps vm = rw supervisor_real (launch-Keeps host r vm)

  stop_vm-Keeps : (vm : Vm) → Keeps ((supervisor host r).stop vm)
  stop_vm-Keeps vm = rw supervisor_real (stop-Keeps host r vm)

  pub is_alive-Keeps_real : (vm : Vm) → Keeps (is_alive host codec r vm)
  unfolding is_alive
  is_alive-Keeps_real vm = rw (is_alive, supervisor_real) (is_alive-Keeps host r vm)

  -- Asking whether a VM is alive gives no error.
  pub is_alive-IsTotal : (vm : Vm) → IsTotal (is_alive host codec r vm)
  unfolding is_alive
  is_alive-IsTotal vm = rw (is_alive, supervisor_real) (is_active-IsTotal host r vm)

  forward-Keeps : (vm : Vm) (port : ℤ) → Keeps ((port_forwarder host r).launch vm port)
  forward-Keeps vm port = rw port_forwarder_real (launch_forward-Keeps host r vm.id port vm)

  unforward-Keeps : (id : Text) (port : ℤ) → Keeps ((port_forwarder host r).stop id port)
  unforward-Keeps id port = rw port_forwarder_real (stop_forward-Keeps host r id port)

  reforward-Keeps : (id : Text) (port : ℤ) → Keeps ((port_forwarder host r).restart id port)
  reforward-Keeps id port = rw port_forwarder_real (restart_forward-Keeps host r id port)

  pub port_forward_alive-Keeps :
      (id : Text) (port : ℤ) → Keeps (port_forward_alive host codec r id port)
  unfolding port_forward_alive
  port_forward_alive-Keeps id port =
      rw (port_forward_alive, port_forwarder_real) (forward_alive-Keeps host r id port)

  after_wakeup-Keeps : (vm : Vm) (event : Wakeup) → Keeps (after_wakeup host codec r vm event)
  unfolding after_wakeup
  after_wakeup-Keeps vm (exited outcome) = search keeping
  after_wakeup-Keeps vm signalled = search (keeping, stop_vm-Keeps) depth 8
  after_wakeup-Keeps vm (console_done true ready) = search keeping
  after_wakeup-Keeps vm (console_done false ready) = search keeping

  wait_or_background-Keeps :
      (vm : Vm) (attach : Bool) → Keeps (wait_or_background host codec r vm attach)
  unfolding wait_or_background
  wait_or_background-Keeps vm false = search keeping
  wait_or_background-Keeps vm true = search (keeping, after_wakeup-Keeps) depth 8

  pub launch_port_forwards-Keeps : (vm : Vm) → Keeps (launch_port_forwards host codec r vm)
  unfolding launch_port_forwards
  launch_port_forwards-Keeps vm = search (keeping, forward-Keeps) depth 8

  pub stop_port_forwards-Keeps : (vm : Vm) → Keeps (stop_port_forwards host codec r vm)
  unfolding stop_port_forwards
  stop_port_forwards-Keeps vm = search (keeping, unforward-Keeps) depth 8

  pub restart_port_forwards-Keeps : (vm : Vm) → Keeps (restart_port_forwards host codec r vm)
  unfolding restart_port_forwards
  restart_port_forwards-Keeps vm = search (keeping, reforward-Keeps) depth 8

  start_guest_port_proxies-Keeps : (vm : Vm) → Keeps (start_guest_port_proxies host codec r vm)
  unfolding start_guest_port_proxies
  start_guest_port_proxies-Keeps vm = search (keeping, start_proxy-Keeps) depth 8

  await_api-Keeps : (vm : Vm) → Keeps (await_api host codec r vm)
  unfolding await_api
  await_api-Keeps vm = search (keeping, wait_for_socket-Keeps) depth 8

  pub run_vm-Keeps :
      (vm : Vm) (image : Text) (attach : Bool) → Keeps (run_vm host codec r vm image attach)
  unfolding run_vm
  run_vm-Keeps vm image attach =
      search
        (
          keeping, setup_chroot-Keeps, setup-Keeps, launch_vm-Keeps, await_api-Keeps, boot_vm-Keeps,
          launch_port_forwards-Keeps, start_guest_port_proxies-Keeps, wait_or_background-Keeps,
        )
        depth 20

  tear_down-Keeps : (vm : Vm) → Keeps (tear_down host codec r vm)
  unfolding tear_down
  tear_down-Keeps vm =
      search (keeping, stop_vm-Keeps, stop_port_forwards-Keeps, teardown-Keeps) depth 14

  pub destroy-Keeps : (vm : Vm) → Keeps (destroy host codec r vm)
  unfolding destroy
  destroy-Keeps vm = search (keeping, api_put-Keeps, tear_down-Keeps) depth 12

  save-Keeps : (vm : Vm) (dir : Text) → Keeps (save host codec r vm dir)
  unfolding save
  save-Keeps vm dir = search (keeping, api_put-Keeps, api_patch-Keeps, copy_out-Keeps) depth 14

  pub snapshot-Keeps : (vm : Vm) (dir : Text) → Keeps (snapshot host codec r vm dir)
  unfolding snapshot
  snapshot-Keeps vm dir = search (keeping, save-Keeps, tear_down-Keeps) depth 8

  pub restore-Keeps :
      (vm : Vm) (dir : Text) (attach : Bool) → Keeps (restore host codec r vm dir attach)
  unfolding restore
  restore-Keeps vm dir attach =
      search
        (
          keeping, setup_restore_chroot-Keeps, setup-Keeps, launch_vm-Keeps, await_api-Keeps,
          api_put-Keeps, notify_restore-Keeps, launch_port_forwards-Keeps,
          start_guest_port_proxies-Keeps, wait_or_background-Keeps,
        )
        depth 22
