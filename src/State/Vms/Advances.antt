-- ===== src/State/Vms/Advances.antt =====
-- How the rows of the vms table may change: they stay a ledger, and their registry takes steps.
use mathlib.Core.Path.{subst}
use firecracker_lab.Prelude.{Text, ℕ, ℤ, ◌≡◌, sym, ap, none, some, Option, List, arith}
use firecracker_lab.Prelude.Lists.{All}
use firecracker_lab.World.{ok}
use firecracker_lab.World.Rows.{VmRow}
use firecracker_lab.State.Names.{vm_id}
use firecracker_lab.State.Ports.{marshal_ports}
use firecracker_lab.State.Ports.RoundTrip.{IsInt, unmarshal_ports-marshal_ports}
use firecracker_lab.State.Vms.{
  Vm, new_vm, new_row, find_vm, remove_vm, write_ports, scan_vm, scan_found, or_empty,
}
use firecracker_lab.State.Vms.Ledger.{
  IsLedger, remove_vm-IsLedger, write_ports-IsLedger, append-IsLedger,
}
use firecracker_lab.State.Vms.Allocate.{row_of, Allocated}
use firecracker_lab.State.Vms.Complete.{row_of-IsSlotRow}
use firecracker_lab.State.Vms.Registry.{
  Steps, Step, Steps-trans, registry, registry-remove_vm, registry-write_ports, registry-append,
  find_vm-free,
}
use firecracker_lab.World.{Result, err, World}
use firecracker_lab.World.Rows.{Db}

abbrev pub Advances : List VmRow → List VmRow → Type 0
Advances rows rows' = IsLedger rows' × Steps (registry rows) (registry rows')

pub stay-Advances : (rows : List VmRow) → IsLedger rows → Advances rows rows
stay-Advances rows sound = (sound, Steps.stay)

pub same-Advances : (rows rows' : List VmRow) → rows' ≡ rows → IsLedger rows → Advances rows rows'
same-Advances rows rows' e sound = subst (Advances rows) (sym e) (sound, Steps.stay)

pub Advances-trans :
    (rows rows' rows'' : List VmRow)
    → Advances rows rows'
    → Advances rows' rows''
    → Advances rows rows''
Advances-trans rows rows' rows'' (sound, s) (sound', t) = (sound', Steps-trans s t)

pub remove_vm-Advances :
    (id : Text) (rows : List VmRow) → IsLedger rows → Advances rows (remove_vm id rows)
remove_vm-Advances id rows sound = (
  remove_vm-IsLedger id rows sound,
  Steps.go Steps.stay (Step.release id (registry-remove_vm id rows)),
)

registry-found :
    (id : Text) (rows : List VmRow) (r : VmRow) (u : Vm)
    → find_vm id rows ≡ some r
    → scan_vm r ≡ ok u
    → (scan_found (find_vm id rows) ≡ ok (some u)) × (registry rows id ≡ some u)
unfolding registry scan_found
registry-found id rows r u e h = ground (arith, e, h)

pub write_ports-Advances :
    (id : Text) (ports : List ℤ) (rows : List VmRow) (r : VmRow) (u : Vm)
    → find_vm id rows ≡ some r
    → scan_vm r ≡ ok u
    → All IsInt ports
    → IsLedger rows
    → Advances rows (write_ports (marshal_ports ports) id rows)
write_ports-Advances id ports rows r u e h fits sound =
    let (found, known) = registry-found id rows r u e h in
    (
      write_ports-IsLedger id ports rows fits sound,
      Steps.go Steps.stay
          (Step.forward id u ports known (registry-write_ports id rows u ports fits found)),
    )

-- The VM of a new row.
scan_vm-new_row :
    (i : ℕ) (vcpus mem_mib : ℤ) (image : Text) (ports : Option (List ℤ))
    → All IsInt (or_empty ports)
    → scan_vm (row_of vcpus mem_mib image ports i) ≡ ok (new_vm i vcpus mem_mib (or_empty ports))
unfolding new_row new_vm scan_vm
scan_vm-new_row i vcpus mem_mib image ports fits =
    ground (arith, unmarshal_ports-marshal_ports (or_empty ports) fits)

registry-absent : (id : Text) (rows : List VmRow) → find_vm id rows ≡ none → registry rows id ≡ none
unfolding registry scan_found
registry-absent id rows h = ground (arith, h)

pub Allocated-Advances :
    (vcpus mem_mib : ℤ) (image : Text) (ports : Option (List ℤ)) (db : Db) (o : Result Vm × World)
    → Allocated vcpus mem_mib image ports db o
    → All IsInt (or_empty ports)
    → IsLedger db.vms
    → Advances db.vms o.1.db.vms
unfolding new_row new_vm
Allocated-Advances vcpus mem_mib image ports db (err e, w) same fits sound =
    same-Advances db.vms w.db.vms (ap (λ (d : Db). d.vms) same) sound
Allocated-Advances vcpus mem_mib image ports db (ok v, w) (i, lt, free, below, made, stored) fits
      sound =
    let r = row_of vcpus mem_mib image ports i in
    subst (λ (d : Db). Advances db.vms d.vms) (sym stored)
      (
        append-IsLedger r db.vms (row_of-IsSlotRow vcpus mem_mib image ports i lt fits) sound free,
        Steps.go Steps.stay (
            Step.assign i vcpus mem_mib (or_empty ports) lt
              (registry-absent (vm_id i) db.vms (find_vm-free i db.vms sound free))
              (registry-append r db.vms (new_vm i vcpus mem_mib (or_empty ports))
                (find_vm-free i db.vms sound free)
                (scan_vm-new_row i vcpus mem_mib image ports fits))),
      )
