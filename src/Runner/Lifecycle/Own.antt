-- ===== src/Runner/Lifecycle/Own.antt =====
-- That Destroy acts on nothing but the VM that it is given.
use firecracker_lab.Prelude.{Text, ℤ, ◌≡◌, refl, List}
use firecracker_lab.Agent.{Codec}
use firecracker_lab.State.Vms.{Vm}
use firecracker_lab.World.{
  Call, Json, exec, http, remove_all, sleep, Host, Result, ok, err, ⊤, call, ask,
}
use firecracker_lab.World.Emits.{Emits, emitting, call-Emits, ask-Emits}
use firecracker_lab.Runner.{Runner, vm_dir, socket_path}
use firecracker_lab.Runner.Api.{run, api_put, api_request}
use firecracker_lab.Runner.Systemd.{
  net, supervisor, port_forwarder, iproute2_network_provisioner, systemd_supervisor,
  systemd_port_forwarder, stop_unit, after_stop, is_known_unit, stop_args, load_state_args,
  socat_unit_name, down_args, delete_tap_args,
}
use firecracker_lab.Runner.Lifecycle.{stop_port_forwards, tear_down, destroy}
use firecracker_lab.Runner.Lifecycle.Unrecorded.{
  IsReal, net_real, supervisor_real, port_forwarder_real,
}

-- The units of a VM: its own and those of its port forwards.
pub data IsUnitOf (vm : Vm) : Text → Type 0 where
  own_unit : IsUnitOf vm vm.unit
  forward_unit : (port : ℤ) → IsUnitOf vm (socat_unit_name vm.id port)

-- The commands that concern only the units and the tap of a VM.
pub data IsCommandOf (vm : Vm) : List Text → Type 0 where
  stop_of : {unit : Text} → IsUnitOf vm unit → IsCommandOf vm (stop_args unit)
  load_state_of : {unit : Text} → IsUnitOf vm unit → IsCommandOf vm (load_state_args unit)
  down : IsCommandOf vm (down_args vm.tap)
  delete_tap : IsCommandOf vm (delete_tap_args vm.tap)

-- A call that concerns only the VM: a request to its socket, one of those commands, the removal of
-- its directory, or a sleep.
abbrev pub IsCallOf : Runner → Vm → Call → Type 0
IsCallOf r vm (http sock method path body) = sock ≡ socket_path r vm.id
IsCallOf r vm (exec args) = IsCommandOf vm args
IsCallOf r vm (remove_all path) = path ≡ vm_dir r vm.id
IsCallOf r vm (sleep ms) = Unit
IsCallOf r vm c = ⊥

module _ (host : Host) (codec : Codec) (r : Runner) (real : IsReal r) (vm : Vm) where
  run-Emits : (args : List Text) → IsCommandOf vm args → Emits (IsCallOf r vm) (run host args)
  unfolding run
  run-Emits args own = call-Emits host (exec args) own

  load_state-Emits :
      (unit : Text)
      → IsUnitOf vm unit
      → Emits (IsCallOf r vm) (ask host (exec (load_state_args unit)))
  load_state-Emits unit own =
      ask-Emits host (exec (load_state_args unit)) (IsCommandOf.load_state_of own)

  known-Emits : (unit : Text) → IsUnitOf vm unit → Emits (IsCallOf r vm) (is_known_unit host unit)
  unfolding is_known_unit
  known-Emits unit own = search (emitting, load_state-Emits) depth 8

  after_stop-Emits :
      (unit : Text) (o : Result ⊤)
      → IsUnitOf vm unit
      → Emits (IsCallOf r vm) (after_stop host unit o)
  unfolding after_stop
  after_stop-Emits unit (ok a) own = search emitting
  after_stop-Emits unit (err e) own = search (emitting, known-Emits) depth 8

  stop_unit-Emits : (unit : Text) → IsUnitOf vm unit → Emits (IsCallOf r vm) (stop_unit host unit)
  unfolding stop_unit
  stop_unit-Emits unit own =
      search (emitting, run-Emits, after_stop-Emits, IsCommandOf.stop_of) depth 10

  stop_vm-Emits : Emits (IsCallOf r vm) ((supervisor host r).stop vm)
  unfolding systemd_supervisor
  stop_vm-Emits = rw (supervisor_real host codec r real) (stop_unit-Emits vm.unit IsUnitOf.own_unit)

  unforward-Emits : (port : ℤ) → Emits (IsCallOf r vm) ((port_forwarder host r).stop vm.id port)
  unfolding systemd_port_forwarder
  unforward-Emits port =
      rw (port_forwarder_real host codec r real)
        (stop_unit-Emits (socat_unit_name vm.id port) (IsUnitOf.forward_unit port))

  teardown-Emits : Emits (IsCallOf r vm) ((net host r).teardown_tap vm)
  unfolding iproute2_network_provisioner
  teardown-Emits =
      rw (net_real host codec r real)
        (search (emitting, run-Emits, IsCommandOf.down, IsCommandOf.delete_tap) depth 10)

  removed-Emits : Emits (IsCallOf r vm) (call host (remove_all (vm_dir r vm.id)))
  removed-Emits = call-Emits host (remove_all (vm_dir r vm.id)) refl

  api_put-Emits :
      (path : Text) (body : Json)
      → Emits (IsCallOf r vm) (api_put host (socket_path r vm.id) path body)
  unfolding api_put api_request
  api_put-Emits path body = search emitting depth 10

  -- With the host's own tools, every call that Destroy makes is a request to the socket of the VM, a
  -- stop or a query of its unit or of the unit of a forward of it, the removal of its tap or of its
  -- directory, or a sleep.
  pub destroy-Emits : Emits (IsCallOf r vm) (destroy host codec r vm)
  unfolding destroy tear_down stop_port_forwards
  destroy-Emits =
      search
        (emitting, api_put-Emits, stop_vm-Emits, unforward-Emits, teardown-Emits, removed-Emits, tt)
        depth 16
