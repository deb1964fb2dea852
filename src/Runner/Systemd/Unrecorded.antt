-- ===== src/Runner/Systemd/Unrecorded.antt =====
-- The commands of iproute2 and systemd do not touch the state database.
use firecracker_lab.Prelude.{Text, ℤ}
use firecracker_lab.State.Vms.{Vm}
use firecracker_lab.World.{Host, ⊤, Result, ok, err}
use firecracker_lab.World.Total.{IsTotal, totals}
use firecracker_lab.World.Keeps.{Keeps, keeping}
use firecracker_lab.Runner.{Runner}
use firecracker_lab.Runner.Api.Unrecorded.{run-Keeps}
use firecracker_lab.Runner.Systemd.{
  is_known_unit, after_stop, stop_unit, is_active, iproute2_network_provisioner, systemd_supervisor,
  systemd_port_forwarder,
}

module _ (host : Host) where
  is_known_unit-Keeps : (unit : Text) → Keeps (is_known_unit host unit)
  unfolding is_known_unit
  is_known_unit-Keeps unit = search keeping depth 8

  after_stop-Keeps : (unit : Text) (r : Result ⊤) → Keeps (after_stop host unit r)
  unfolding after_stop
  after_stop-Keeps unit (ok a) = search keeping
  after_stop-Keeps unit (err e) = search (keeping, is_known_unit-Keeps) depth 8

  stop_unit-Keeps : (unit : Text) → Keeps (stop_unit host unit)
  unfolding stop_unit
  stop_unit-Keeps unit = search (keeping, run-Keeps, after_stop-Keeps) depth 8

  is_active-Keeps : (unit : Text) → Keeps (is_active host unit)
  unfolding is_active
  is_active-Keeps unit = search (keeping, run-Keeps) depth 8

  module _ (r : Runner) (vm : Vm) where
    pub setup_tap-Keeps : Keeps ((iproute2_network_provisioner host).setup_tap vm)
    unfolding iproute2_network_provisioner
    setup_tap-Keeps = search (keeping, run-Keeps) depth 8

    pub teardown_tap-Keeps : Keeps ((iproute2_network_provisioner host).teardown_tap vm)
    unfolding iproute2_network_provisioner
    teardown_tap-Keeps = search (keeping, run-Keeps) depth 8

    pub launch-Keeps : Keeps ((systemd_supervisor host r).launch vm)
    unfolding systemd_supervisor
    launch-Keeps = search (keeping, run-Keeps) depth 8

    pub stop-Keeps : Keeps ((systemd_supervisor host r).stop vm)
    unfolding systemd_supervisor
    stop-Keeps = stop_unit-Keeps vm.unit

    pub is_active-IsTotal : IsTotal ((systemd_supervisor host r).is_alive vm)
    unfolding systemd_supervisor is_active
    is_active-IsTotal = search totals depth 8

    pub is_alive-Keeps : Keeps ((systemd_supervisor host r).is_alive vm)
    unfolding systemd_supervisor
    is_alive-Keeps = is_active-Keeps vm.unit

  module _ (r : Runner) (id : Text) (port : ℤ) where
    pub launch_forward-Keeps : (vm : Vm) → Keeps ((systemd_port_forwarder host r).launch vm port)
    unfolding systemd_port_forwarder
    launch_forward-Keeps vm = search (keeping, run-Keeps) depth 8

    pub stop_forward-Keeps : Keeps ((systemd_port_forwarder host r).stop id port)
    unfolding systemd_port_forwarder
    stop_forward-Keeps = stop_unit-Keeps _

    pub restart_forward-Keeps : Keeps ((systemd_port_forwarder host r).restart id port)
    unfolding systemd_port_forwarder
    restart_forward-Keeps = search (keeping, run-Keeps) depth 8

    pub forward_alive-Keeps : Keeps ((systemd_port_forwarder host r).is_alive id port)
    unfolding systemd_port_forwarder
    forward_alive-Keeps = is_active-Keeps _
