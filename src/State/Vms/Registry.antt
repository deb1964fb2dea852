-- ===== src/State/Vms/Registry.antt =====
-- What the vms table is for its clients: a VM for some of the ids. The order of the rows, the text
-- of the ports and the columns that are not read are forgotten.
use mathlib.Core.Path.{fun_ext}
use firecracker_lab.Prelude.{
  Text, ℕ, ℤ, ◌<◌, ◌≡◌, ◌≢◌, refl, false, Option, none, some, List, [], ◌∷◌, ◌++◌, ◌==◌, text_eq,
  if◌then◌else◌, arith,
}
use firecracker_lab.Prelude.Lists.{All}
use firecracker_lab.World.{Result, ok, err}
use firecracker_lab.World.Rows.{VmRow}
use firecracker_lab.State.Names.{vm_id, tap_name}
use firecracker_lab.State.Names.Distinct.{vm_id_injective}
use firecracker_lab.State.Ports.{marshal_ports}
use firecracker_lab.State.Ports.RoundTrip.{IsInt}
use firecracker_lab.State.Vms.{
  Vm, new_vm, find_vm, remove_vm, write_ports, has_tap, scan_vm, scan_found, slots,
}
use firecracker_lab.State.Vms.Ledger.{IsLedger}
use firecracker_lab.State.Vms.Reads.{
  find_vm-remove_vm_self, find_vm-remove_vm_ne, find_vm-write_ports_ne, found_again,
}

abbrev pub Registry : Type 0
Registry = Text → Option Vm

-- The registry, changed at one id.
abbrev pub update : Registry → Text → Option Vm → Registry
update m id v j = if j == id then v else m j

-- The steps that a registry may take: a slot that is not assigned is assigned, an id is released,
-- or the ports of a VM change.
pub data Step (m n : Registry) : Type 0 where
  assign :
      (i : ℕ) (vcpus mem_mib : ℤ) (ports : List ℤ)
      → i < slots
      → m (vm_id i) ≡ none
      → n ≡ update m (vm_id i) (some (new_vm i vcpus mem_mib ports))
      → Step m n
  release : (id : Text) → n ≡ update m id none → Step m n
  forward :
      (id : Text) (u : Vm) (ports : List ℤ)
      → m id ≡ some u
      → n ≡ update m id (some (record u { ports = ports }))
      → Step m n

pub data Steps : Registry → Registry → Type 0 where
  stay : {m : Registry} → Steps m m
  go : {m n o : Registry} → Steps m n → Step n o → Steps m o

pub Steps-trans : {m n o : Registry} → Steps m n → Steps n o → Steps m o
Steps-trans s Steps.stay = s
Steps-trans s (Steps.go t u) = Steps.go (Steps-trans s t) u

read_found : Result (Option Vm) → Option Vm
read_found (ok found) = found
read_found (err e) = none

-- The registry of a table.
unfoldable pub registry : List VmRow → Registry
unfolding read_found
registry rows id = read_found (scan_found (find_vm id rows))

pub registry-remove_vm :
    (id : Text) (rows : List VmRow) → registry (remove_vm id rows) ≡ update (registry rows) id none
unfolding registry scan_found
registry-remove_vm id rows =
    fun_ext λ j. ground (arith, find_vm-remove_vm_self id rows, find_vm-remove_vm_ne id j rows)

pub registry-write_ports :
    (id : Text) (rows : List VmRow) (u : Vm) (ports : List ℤ)
    → All IsInt ports
    → scan_found (find_vm id rows) ≡ ok (some u)
    → registry (write_ports (marshal_ports ports) id rows)
      ≡ update (registry rows) id (some (record u { ports = ports }))
unfolding registry read_found
registry-write_ports id rows u ports fits h = fun_ext λ j. ground (
  arith,
  found_again id rows (find_vm id rows) ports refl fits h,
  find_vm-write_ports_ne (marshal_ports ports) id j rows,
)

-- No row of a ledger has the id of a free slot.
pub find_vm-free :
    (i : ℕ) (rows : List VmRow)
    → IsLedger rows
    → has_tap (tap_name i) rows ≡ false
    → find_vm (vm_id i) rows ≡ none
unfolding find_vm has_tap
find_vm-free i [] sound free = refl
find_vm-free i (r ∷ rows) (row, fresh, sound) free =
    ground (arith, find_vm-free i rows sound, vm_id_injective row.slot i, row.id_eq, row.tap_eq)

find_vm-append_self :
    (r : VmRow) (rows : List VmRow)
    → find_vm r.id rows ≡ none
    → find_vm r.id (rows ++ r ∷ []) ≡ some r
unfolding find_vm
find_vm-append_self r [] h = ground arith
find_vm-append_self r (s ∷ rows) h = ground (arith, find_vm-append_self r rows)

find_vm-append_ne :
    (r : VmRow) (rows : List VmRow) (j : Text)
    → j ≢ r.id
    → find_vm j (rows ++ r ∷ []) ≡ find_vm j rows
unfolding find_vm
find_vm-append_ne r [] j ne = ground arith
find_vm-append_ne r (s ∷ rows) j ne = ground (arith, find_vm-append_ne r rows j)

pub registry-append :
    (r : VmRow) (rows : List VmRow) (u : Vm)
    → find_vm r.id rows ≡ none
    → scan_vm r ≡ ok u
    → registry (rows ++ r ∷ []) ≡ update (registry rows) r.id (some u)
unfolding registry scan_found read_found
registry-append r rows u fresh h =
    fun_ext λ j. ground (arith, find_vm-append_self r rows, find_vm-append_ne r rows j, h)
