-- ===== src/Runner/Lifecycle/Total.antt =====
-- That Destroy succeeds on a host where no call fails.
use firecracker_lab.Prelude.{Text, List, ℤ}
use firecracker_lab.Agent.{Codec}
use firecracker_lab.State.Vms.{Vm}
use firecracker_lab.World.{Call, Host, exec, call}
use firecracker_lab.World.Total.{
  IsTotal, IsUp, totals, call-IsTotal, attempted-IsTotal, pure-IsTotal,
}
use firecracker_lab.Runner.{Runner}
use firecracker_lab.Runner.Api.{run}
use firecracker_lab.Runner.Systemd.{
  net, supervisor, port_forwarder, iproute2_network_provisioner, systemd_supervisor,
  systemd_port_forwarder, stop_unit, after_stop, stop_args, socat_unit_name,
}
use firecracker_lab.Runner.Lifecycle.{stop_port_forwards, tear_down, destroy}
use firecracker_lab.Runner.Lifecycle.Unrecorded.{
  IsReal, net_real, supervisor_real, port_forwarder_real,
}

module _ (host : Host) (up : IsUp host) where
  run-IsTotal : (args : List Text) → IsTotal (run host args)
  unfolding run
  run-IsTotal args = call-IsTotal host (exec args) (λ h. up h (exec args))

  stop_unit-IsTotal : (unit : Text) → IsTotal (stop_unit host unit)
  unfolding stop_unit after_stop
  stop_unit-IsTotal unit =
      attempted-IsTotal (run host (stop_args unit)) (after_stop host unit)
        (run-IsTotal (stop_args unit)) (λ a. pure-IsTotal tt)

  module _ (codec : Codec) (r : Runner) (real : IsReal r) where
    stop_vm-IsTotal : (vm : Vm) → IsTotal ((supervisor host r).stop vm)
    unfolding systemd_supervisor
    stop_vm-IsTotal vm = rw (supervisor_real host codec r real) (stop_unit-IsTotal vm.unit)

    unforward-IsTotal : (id : Text) (port : ℤ) → IsTotal ((port_forwarder host r).stop id port)
    unfolding systemd_port_forwarder
    unforward-IsTotal id port =
        rw (port_forwarder_real host codec r real) (stop_unit-IsTotal (socat_unit_name id port))

    teardown-IsTotal : (vm : Vm) → IsTotal ((net host r).teardown_tap vm)
    unfolding iproute2_network_provisioner
    teardown-IsTotal vm = rw (net_real host codec r real) (search (totals, run-IsTotal) depth 8)

    removed-IsTotal : (c : Call) → IsTotal (call host c)
    removed-IsTotal c = call-IsTotal host c (λ h. up h c)

    pub destroy-IsTotal : (vm : Vm) → IsTotal (destroy host codec r vm)
    unfolding destroy tear_down stop_port_forwards
    destroy-IsTotal vm =
        search (totals, stop_vm-IsTotal, unforward-IsTotal, teardown-IsTotal, removed-IsTotal) depth
          16
