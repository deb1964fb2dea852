-- ===== src/Runner/Systemd.antt =====
-- The real network provisioner, supervisor and port forwarder (vm/vm.go): commands of iproute2
-- and systemd.
pub mod Unrecorded
pub mod Stopped
use firecracker_lab.Prelude.{
  Text, codes, ℕ, zero, suc, ℤ, Bool, true, false, not, ◌||◌, ◌&&◌, Option, none, some, List, [],
  ◌∷◌, ◌++◌, ◌==◌, text_eq, if◌then◌else◌,
}
use firecracker_lab.Prelude.Decimal.{format_int}
use firecracker_lab.FilePath.{join}
use firecracker_lab.Strings.{trim_space}
use firecracker_lab.State.Names.{unit_name}
use firecracker_lab.State.Vms.{Vm}
use firecracker_lab.World.{
  truncate, exec, Host, Error, failed, wrap, Result, ok, err, World, Action, ⊤, pure, raise,
  attempt, wrapping, call, nap, ask, ◌>>=◌, ◌>>◌,
}
use firecracker_lab.Runner.{
  Runner, NetworkProvisioner, VmSupervisor, PortForwarder, vsock_path, boot_log_path,
}
use firecracker_lab.Runner.Api.{run}

abbrev bridge_name : Text
bridge_name = codes "br0"

unfoldable pub add_tap_args : Text → List Text
add_tap_args tap = codes "ip" ∷ codes "tuntap" ∷ codes "add" ∷ tap ∷ codes "mode" ∷ codes "tap" ∷ []

unfoldable pub master_args : Text → List Text
master_args tap = codes "ip" ∷ codes "link" ∷ codes "set" ∷ tap ∷ codes "master" ∷ bridge_name ∷ []

unfoldable pub up_args : Text → List Text
up_args tap = codes "ip" ∷ codes "link" ∷ codes "set" ∷ tap ∷ codes "up" ∷ []

unfoldable pub down_args : Text → List Text
down_args tap = codes "ip" ∷ codes "link" ∷ codes "set" ∷ tap ∷ codes "down" ∷ []

unfoldable pub delete_tap_args : Text → List Text
delete_tap_args tap =
    codes "ip" ∷ codes "tuntap" ∷ codes "del" ∷ tap ∷ codes "mode" ∷ codes "tap" ∷ []

abbrev property : Text → List Text → List Text
property p rest = codes "--property" ∷ p ∷ rest

-- The arguments of `systemd-run` for a VM.
unfoldable pub launch_args : Runner → Vm → List Text
launch_args r vm =
    codes "systemd-run"
    ∷ codes "--unit"
    ∷ vm.unit
    ∷ codes "--collect"
    ∷ property (codes "Delegate=yes") (
        property (codes "StandardOutput=file:" ++ boot_log_path r vm.id) (
          property (codes "StandardError=file:" ++ boot_log_path r vm.id) (
            codes "--"
            ∷ r.jailer_bin
            ∷ codes "--id"
            ∷ vm.id
            ∷ codes "--exec-file"
            ∷ r.firecracker_bin
            ∷ codes "--uid"
            ∷ format_int r.uid
            ∷ codes "--gid"
            ∷ format_int r.gid
            ∷ codes "--chroot-base-dir"
            ∷ join (r.data_dir ∷ codes "vms" ∷ [])
            ∷ codes "--cgroup-version"
            ∷ codes "2"
            ∷ codes "--"
            ∷ codes "--api-sock"
            ∷ codes "/run/firecracker.socket"
            ∷ codes "--log-path"
            ∷ codes "/run/firecracker.log"
            ∷ codes "--level"
            ∷ codes "Debug"
            ∷ [])))

unfoldable pub socat_unit_name : Text → ℤ → Text
socat_unit_name id port = unit_name id ++ (codes "-socat-" ++ format_int port)

-- The socket that Firecracker connects to for a port of the guest.
unfoldable pub forward_socket : Runner → Text → ℤ → Text
forward_socket r id port = vsock_path r id ++ (b'_' ∷ format_int port)

-- The arguments of `systemd-run` for the forward of one port.
unfoldable pub socat_args : Runner → Vm → ℤ → List Text
socat_args r vm port =
    codes "systemd-run"
    ∷ codes "--unit"
    ∷ socat_unit_name vm.id port
    ∷ codes "--collect"
    ∷ property (codes "BindsTo=" ++ (vm.unit ++ codes ".service")) (
        property (codes "After=" ++ (vm.unit ++ codes ".service")) (
          property (codes "User=" ++ format_int r.uid) (
            property (codes "Group=" ++ format_int r.gid) (
              codes "--"
              ∷ codes "socat"
              ∷ (codes "UNIX-LISTEN:"
                  ++ (forward_socket r vm.id port ++ codes ",fork,unlink-early"))
              ∷ (codes "TCP:127.0.0.1:" ++ format_int port)
              ∷ []))))

unfoldable pub stop_args : Text → List Text
stop_args unit = codes "systemctl" ∷ codes "stop" ∷ unit ∷ []

unfoldable pub restart_args : Text → List Text
restart_args unit = codes "systemctl" ∷ codes "restart" ∷ unit ∷ []

unfoldable pub load_state_args : Text → List Text
load_state_args unit =
    codes "systemctl" ∷ codes "show" ∷ codes "-p" ∷ codes "LoadState" ∷ codes "--value" ∷ unit ∷ []

unfoldable pub active_state_args : Text → List Text
active_state_args unit =
    codes "systemctl"
    ∷ codes "show"
    ∷ codes "-p"
    ∷ codes "ActiveState"
    ∷ codes "--value"
    ∷ unit
    ∷ []

unfoldable pub is_active_args : Text → List Text
is_active_args unit = codes "systemctl" ∷ codes "is-active" ∷ codes "--quiet" ∷ unit ∷ []

known_of : Result Text → Bool
known_of (err e) = false
known_of (ok out) = not (trim_space out == codes "not-found")

unfoldable pub succeeded : {A : Type 0} → Result A → Bool
succeeded (ok a) = true
succeeded (err e) = false

-- The states in which `Wait` goes on polling.
unfoldable pub is_transient : Text → Bool
is_transient s = s == codes "active" || s == codes "activating" || s == codes "deactivating"

module _ (host : Host) where
  unfoldable pub is_known_unit : Text → Action Bool
  unfolding known_of
  is_known_unit unit = do
    shown ← attempt (ask host (exec (load_state_args unit)))
    pure (known_of shown)

  unfoldable pub after_stop : Text → Result ⊤ → Action ⊤
  after_stop unit (ok _) = pure tt
  after_stop unit (err e) = do
    known ← is_known_unit unit
    if known then raise (wrap (codes "systemctl stop " ++ unit) e) else pure tt

  -- An error of `systemctl stop` counts only if systemd knows the unit.
  unfoldable pub stop_unit : Text → Action ⊤
  unfolding after_stop
  stop_unit unit = do stopped ← attempt (run host (stop_args unit)); after_stop unit stopped

  unfoldable pub is_active : Text → Action Bool
  unfolding succeeded
  is_active unit = do answer ← attempt (run host (is_active_args unit)); pure (succeeded answer)

  -- The polling of `Wait`, with a bound on its rounds; `none` means that they ran out.
  unfoldable pub wait_unit : ℕ → Text → Action (Option Text)
  wait_unit zero unit = pure none
  wait_unit (suc rounds) unit =
      let again : Action (Option Text) = wait_unit rounds unit in
      do
        out ← wrapping (codes "systemctl show " ++ unit) (ask host (exec (active_state_args unit)))
        if is_transient (trim_space out)
            then (nap 300 >>= λ _. again)
            else pure (some (trim_space out))

  unfoldable pub iproute2_network_provisioner : NetworkProvisioner
  iproute2_network_provisioner = record {
    setup_tap = λ vm. do
      wrapping (codes "create tap") (run host (add_tap_args vm.tap))
      wrapping (codes "attach tap to bridge") (run host (master_args vm.tap))
      wrapping (codes "tap up") (run host (up_args vm.tap));
    teardown_tap = λ vm. do
      attempt (run host (down_args vm.tap))
      wrapping (codes "delete tap") (run host (delete_tap_args vm.tap));
  }

  unfoldable pub systemd_supervisor : Runner → VmSupervisor
  systemd_supervisor r = record {
    launch = λ vm. do
      wrapping (codes "open console log") (call host (truncate (boot_log_path r vm.id)))
      wrapping (codes "systemd-run") (run host (launch_args r vm));
    stop = λ vm. stop_unit vm.unit;
    wait = λ rounds vm. wait_unit rounds vm.unit;
    is_alive = λ vm. is_active vm.unit;
  }

  unfoldable pub systemd_port_forwarder : Runner → PortForwarder
  systemd_port_forwarder r = record {
    launch = λ vm port.
        wrapping (codes "systemd-run (socat " ++ (vm.id ++ (codes " port " ++ format_int port)))
          (run host (socat_args r vm port));
    stop = λ id port. stop_unit (socat_unit_name id port);
    restart = λ id port.
        wrapping (codes "systemctl restart " ++ socat_unit_name id port)
          (run host (restart_args (socat_unit_name id port)));
    is_alive = λ id port. is_active (socat_unit_name id port);
  }

  unfoldable pub net : Runner → NetworkProvisioner
  net r = elim r.net [ none ↦ iproute2_network_provisioner | some n ↦ n ]

  unfoldable pub supervisor : Runner → VmSupervisor
  supervisor r = elim r.supervisor [ none ↦ systemd_supervisor r | some s ↦ s ]

  unfoldable pub port_forwarder : Runner → PortForwarder
  port_forwarder r = elim r.forwarder [ none ↦ systemd_port_forwarder r | some f ↦ f ]
