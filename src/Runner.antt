-- ===== src/Runner.antt =====
-- vm/vm.go: the Runner, the three interfaces that it drives, and where a VM's files are.
pub mod Api
pub mod Systemd
pub mod Chroot
pub mod Lifecycle
pub mod Session
use firecracker_lab.Prelude.{Text, codes, ℕ, ℤ, Bool, Option, none, some, List, [], ◌∷◌, ◌++◌}
use firecracker_lab.FilePath.{join, base}
use firecracker_lab.State.Vms.{Vm}
use firecracker_lab.World.{Action, ⊤}

pub record NetworkProvisioner : Type 0 where
  pub setup_tap : Vm → Action ⊤
  pub teardown_tap : Vm → Action ⊤

-- `wait` has a bound on its rounds, and `none` means that they ran out. `is_alive` gives no error;
-- it is an action because it asks the host.
pub record VmSupervisor : Type 0 where
  pub launch : Vm → Action ⊤
  pub stop : Vm → Action ⊤
  pub wait : ℕ → Vm → Action (Option Text)
  pub is_alive : Vm → Action Bool

pub record PortForwarder : Type 0 where
  pub launch : Vm → ℤ → Action ⊤
  pub stop : Text → ℤ → Action ⊤
  pub restart : Text → ℤ → Action ⊤
  pub is_alive : Text → ℤ → Action Bool

-- An interface that is `none` is nil, and stands for the real implementation.
pub record Runner : Type 0 where
  pub data_dir : Text
  pub source_dir : Text
  pub jailer_bin : Text
  pub firecracker_bin : Text
  pub uid : ℤ
  pub gid : ℤ
  pub net : Option NetworkProvisioner
  pub supervisor : Option VmSupervisor
  pub forwarder : Option PortForwarder

unfoldable pub vm_dir : Runner → Text → Text
vm_dir r id = join (r.data_dir ∷ codes "vms" ∷ base r.firecracker_bin ∷ id ∷ [])

unfoldable pub socket_path : Runner → Text → Text
socket_path r id = join (vm_dir r id ∷ codes "root" ∷ codes "run" ∷ codes "firecracker.socket" ∷ [])

unfoldable pub vsock_path : Runner → Text → Text
vsock_path r id = join (vm_dir r id ∷ codes "root" ∷ codes "run" ∷ codes "vsock.sock" ∷ [])

unfoldable pub boot_log_path : Runner → Text → Text
boot_log_path r id = join (vm_dir r id ∷ codes "console.log" ∷ [])

unfoldable pub root_dir : Runner → Text → Text
root_dir r id = join (vm_dir r id ∷ codes "root" ∷ [])
