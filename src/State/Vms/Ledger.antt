-- ===== src/State/Vms/Ledger.antt =====
-- The invariant of the vms table, and what keeps it.
use firecracker_lab.Prelude.{
  Text, ℕ, ℤ, ◌+◌, ◌<◌, ◌≡◌, refl, ◌∙◌, false, some, List, [], ◌∷◌, ◌++◌, ◌==◌, nat_eq, text_eq,
  inl, inr, arith, Bool-cases,
}
use firecracker_lab.Prelude.Lists.{All}
use firecracker_lab.World.Rows.{VmRow}
use firecracker_lab.State.Names.{tap_name, vm_id, vm_ip, unit_name}
use firecracker_lab.State.Names.Distinct.{vm_id_injective, vm_ip_injective}
use firecracker_lab.State.Ports.{marshal_ports}
use firecracker_lab.State.Ports.RoundTrip.{IsInt}
use firecracker_lab.State.Vms.{has_tap, clashes, remove_vm, write_ports, slots}

-- A row that belongs to slot `slot`.
pub record IsSlotRow (r : VmRow) : Type 0 where
  pub slot : ℕ
  pub in_range : slot < slots
  pub id_eq : r.id ≡ vm_id slot
  pub tap_eq : r.tap ≡ tap_name slot
  pub ip_eq : r.ip ≡ vm_ip slot
  pub cid_eq : r.cid ≡ 3 + slot
  pub unit_eq : r.unit ≡ some (unit_name (vm_id slot))
  pub forwarded : List ℤ
  pub ports_eq : r.ports ≡ marshal_ports forwarded
  pub ports_fit : All IsInt forwarded

-- Every row belongs to a slot, and no two rows have the same tap.
abbrev pub IsLedger : List VmRow → Type 0
IsLedger [] = Unit
IsLedger (r ∷ rows) = IsSlotRow r × (has_tap r.tap rows ≡ false) × IsLedger rows

pub has_tap-append :
    (tap : Text) (rows : List VmRow) (r : VmRow)
    → has_tap tap rows ≡ false
    → (r.tap == tap) ≡ false
    → has_tap tap (rows ++ r ∷ []) ≡ false
unfolding has_tap
has_tap-append tap [] r h k = ground arith
has_tap-append tap (s ∷ rows) r h k = ground (arith, has_tap-append tap rows r)

-- A new row for a free slot violates no constraint of the table.
pub clashes_free :
    (i : ℕ) (v : VmRow) (rows : List VmRow)
    → v.id ≡ vm_id i
    → v.tap ≡ tap_name i
    → v.ip ≡ vm_ip i
    → v.cid ≡ 3 + i
    → IsLedger rows
    → has_tap (tap_name i) rows ≡ false
    → clashes v rows ≡ false
unfolding clashes has_tap
clashes_free i v [] hid htap hip hcid sound free = refl
clashes_free i v (r ∷ rows) hid htap hip hcid (row, fresh, sound) free = ground (
  arith,
  clashes_free i v rows hid htap hip hcid sound,
  vm_id_injective row.slot i,
  vm_ip_injective row.slot i,
  row.id_eq,
  row.tap_eq,
  row.ip_eq,
  row.cid_eq,
)

-- A row for a free slot extends the ledger.
pub append-IsLedger :
    (r : VmRow) (rows : List VmRow)
    → IsSlotRow r
    → IsLedger rows
    → has_tap r.tap rows ≡ false
    → IsLedger (rows ++ r ∷ [])
unfolding has_tap
append-IsLedger r [] row sound free = (row, refl, tt)
append-IsLedger r (s ∷ rows) row (h, fresh, sound) free = (
  h,
  has_tap-append s.tap rows r fresh (ground arith),
  append-IsLedger r rows row sound (ground arith),
)

has_tap-remove_vm :
    (tap id : Text) (rows : List VmRow)
    → has_tap tap rows ≡ false
    → has_tap tap (remove_vm id rows) ≡ false
unfolding has_tap remove_vm
has_tap-remove_vm tap id [] h = refl
has_tap-remove_vm tap id (r ∷ rows) h = ground (arith, has_tap-remove_vm tap id rows)

-- Deleting rows keeps the ledger.
pub remove_vm-IsLedger :
    (id : Text) (rows : List VmRow) → IsLedger rows → IsLedger (remove_vm id rows)
unfolding remove_vm
remove_vm-IsLedger id [] sound = tt
remove_vm-IsLedger id (r ∷ rows) (row, fresh, sound) = elim (Bool-cases (r.id == id)) [
  | inl same ↦ rw same (remove_vm-IsLedger id rows sound)
  | inr other ↦
      rw other (row, has_tap-remove_vm r.tap id rows fresh, remove_vm-IsLedger id rows sound)
]

has_tap-write_ports :
    (tap text id : Text) (rows : List VmRow)
    → has_tap tap (write_ports text id rows) ≡ has_tap tap rows
unfolding has_tap write_ports
has_tap-write_ports tap text id [] = refl
has_tap-write_ports tap text id (r ∷ rows) = elim (Bool-cases (r.id == id)) [
  | inl same ↦ rw (same, has_tap-write_ports tap text id rows) refl
  | inr other ↦ rw (other, has_tap-write_ports tap text id rows) refl
]

store-IsSlotRow :
    (r : VmRow) (ports : List ℤ)
    → IsSlotRow r
    → All IsInt ports
    → IsSlotRow (record r { ports = marshal_ports ports })
store-IsSlotRow r ports row fits = record {
  slot = row.slot;
  in_range = row.in_range;
  id_eq = row.id_eq;
  tap_eq = row.tap_eq;
  ip_eq = row.ip_eq;
  cid_eq = row.cid_eq;
  unit_eq = row.unit_eq;
  forwarded = ports;
  ports_eq = refl;
  ports_fit = fits;
}

-- Storing integers of 64 bits as ports keeps the ledger.
pub write_ports-IsLedger :
    (id : Text) (ports : List ℤ) (rows : List VmRow)
    → All IsInt ports
    → IsLedger rows
    → IsLedger (write_ports (marshal_ports ports) id rows)
unfolding write_ports
write_ports-IsLedger id ports [] fits sound = tt
write_ports-IsLedger id ports (r ∷ rows) fits (row, fresh, sound) = elim (Bool-cases (r.id == id)) [
  | inl same ↦ rw same (
    store-IsSlotRow r ports row fits,
    has_tap-write_ports r.tap (marshal_ports ports) id rows ∙ fresh,
    write_ports-IsLedger id ports rows fits sound,
  )
  | inr other ↦ rw other (
    row,
    has_tap-write_ports r.tap (marshal_ports ports) id rows ∙ fresh,
    write_ports-IsLedger id ports rows fits sound,
  )
]
