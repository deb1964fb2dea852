-- ===== src/State/Names.antt =====
-- The names that a VM's index determines (state/state.go: UnitName, tapName, vmID, vmIP).
pub mod Distinct
use firecracker_lab.Prelude.{Text, codes, ℕ, ◌+◌, ◌/◌, ◌%◌, ◌++◌}
use firecracker_lab.Prelude.Decimal.{digits}

unfoldable pub unit_name : Text → Text
unit_name id = codes "labctl-" ++ id

unfoldable pub tap_name : ℕ → Text
tap_name i = codes "tap" ++ digits i

unfoldable pub vm_id : ℕ → Text
vm_id i = codes "vm" ++ digits i

unfoldable pub vm_ip : ℕ → Text
vm_ip i = codes "172.16." ++ (digits ((i + 2) / 254) ++ (codes "." ++ digits ((i + 2) % 254 + 1)))
