-- ===== src/State/Vms/Complete.antt =====
-- When `AllocateAndInsert` succeeds, and that it keeps the ledger.
use mathlib.Core.Path.{subst}
use firecracker_lab.Prelude.{
  Text, ℕ, zero, suc, ℤ, ◌<◌, ◌≡◌, refl, sym, false, Option, none, some, List, inl, inr, Bool-cases,
  ◌⊎◌,
}
use firecracker_lab.Prelude.Lists.{All}
use firecracker_lab.World.{
  sql, begin_immediate, commit, insert_vm, select_tap, Host, IsSqlUp, Result, ok, err, World,
  logged, sql-ok, continue,
}
use firecracker_lab.World.Rows.{VmRow, Db}
use firecracker_lab.State.Names.{tap_name}
use firecracker_lab.State.Ports.RoundTrip.{IsInt}
use firecracker_lab.State.Vms.{
  Vm, has_tap, new_vm, new_row, slots, or_empty, find_slot, claim, or_rollback, roll_back,
  allocate_and_insert, no_slots,
}
use firecracker_lab.State.Vms.Slots.{Taken, Found, find_slot-Found, find_slot-db}
use firecracker_lab.State.Vms.Ledger.{IsLedger, IsSlotRow, clashes_free, append-IsLedger}
use firecracker_lab.State.Vms.Allocate.{Allocated, row_of, inserted, allocate_and_insert-Allocated}

find_slot-ok :
    (host : Host) (left i : ℕ) (w : World)
    → IsSqlUp host
    → (found : Option ℕ) × ((find_slot host left i w).0 ≡ ok found)
unfolding find_slot
find_slot-ok host zero i w up = (none, refl)
find_slot-ok host (suc left) i w up = elim (Bool-cases (has_tap (tap_name i) w.db.vms)) [
  | inl taken ↦
      rw (sql-ok host (select_tap (tap_name i)) w up, taken) (find_slot-ok host left (suc i) _ up)
  | inr free ↦ rw (sql-ok host (select_tap (tap_name i)) w up, free) (some i, refl)
]

module _ (vcpus mem_mib : ℤ) (image : Text) (ports : Option (List ℤ)) where
  pub row_of-IsSlotRow :
      (i : ℕ)
      → i < slots
      → All IsInt (or_empty ports)
      → IsSlotRow (row_of vcpus mem_mib image ports i)
  unfolding new_vm new_row
  row_of-IsSlotRow i lt fits = record {
    slot = i;
    in_range = lt;
    id_eq = refl;
    tap_eq = refl;
    ip_eq = refl;
    cid_eq = refl;
    unit_eq = refl;
    forwarded = or_empty ports;
    ports_eq = refl;
    ports_fit = fits;
  }

  Allocated-IsLedger :
      (db : Db) (r : Result Vm) (w : World)
      → Allocated vcpus mem_mib image ports db (r, w)
      → All IsInt (or_empty ports)
      → IsLedger db.vms
      → IsLedger w.db.vms
  unfolding new_vm new_row
  Allocated-IsLedger db (err e) w same fits sound = subst (λ d. IsLedger d.vms) (sym same) sound
  Allocated-IsLedger db (ok v) w (i, lt, free, below, made, stored) fits sound =
      subst (λ d. IsLedger d.vms) (sym stored)
        (append-IsLedger _ db.vms (row_of-IsSlotRow i lt fits) sound free)

  roll_back-ok :
      (host : Host) (db : Db) (o : Result Vm × World) (v : Vm)
      → o.0 ≡ ok v
      → (roll_back host db o).0 ≡ ok v
  unfolding roll_back
  roll_back-ok host db (ok u, w) v h = h
  roll_back-ok host db (err e, w) v h = cc

  module _ (host : Host) where
    -- An allocation, successful or not, keeps the ledger.
    pub allocate_and_insert-IsLedger :
        (w : World)
        → All IsInt (or_empty ports)
        → IsLedger w.db.vms
        → IsLedger (allocate_and_insert host vcpus mem_mib image ports w).1.db.vms
    allocate_and_insert-IsLedger w fits sound =
        Allocated-IsLedger w.db (allocate_and_insert host vcpus mem_mib image ports w).0
          (allocate_and_insert host vcpus mem_mib image ports w).1
          (allocate_and_insert-Allocated vcpus mem_mib image ports host w) fits sound

    insert_claim-ok :
        (i : ℕ) (w : World)
        → IsSqlUp host
        → IsLedger w.db.vms
        → has_tap (tap_name i) w.db.vms ≡ false
        → (claim host vcpus mem_mib image ports (some i) w).0
          ≡ ok (new_vm i vcpus mem_mib (or_empty ports))
    unfolding claim
    insert_claim-ok i w up sound free =
        rw
          (
            sql-ok host (insert_vm (row_of vcpus mem_mib image ports i).id) w up,
            clashes_free i (row_of vcpus mem_mib image ports i) w.db.vms
                (unfold new_vm new_row in refl) (unfold new_vm new_row in refl)
                (unfold new_vm new_row in refl) (unfold new_vm new_row in refl) sound free,
            sql-ok host commit (inserted vcpus mem_mib image ports host i w) up,
          )
          refl

    -- How an allocation ends on a host that answers every call.
    abbrev pub Ends : List VmRow → Result Vm → Type 0
    Ends rows r = ((v : Vm) × (r ≡ ok v)) ⊎ ((r ≡ err no_slots) × Taken rows 0 slots)

    found_claim-Ends :
        (found : Option ℕ) (db : Db) (v : World)
        → IsSqlUp host
        → v.db ≡ db
        → IsLedger db.vms
        → Found db.vms slots 0 (ok found)
        → Ends db.vms (roll_back host db (claim host vcpus mem_mib image ports found v)).0
    found_claim-Ends none db v up same sound full = unfold roll_back claim in inr (refl, full)
    found_claim-Ends (some i) db v up same sound (_, lt, free, below) = inl (
      new_vm i vcpus mem_mib (or_empty ports),
      roll_back-ok host db _ _
          (insert_claim-ok i v up (subst (λ d. IsLedger d.vms) (sym same) sound) (rw same free)),
    )

    search_ends :
        (o : Result (Option ℕ) × World) (db : Db) (found : Option ℕ)
        → o.0 ≡ ok found
        → IsSqlUp host
        → o.1.db ≡ db
        → IsLedger db.vms
        → Found db.vms slots 0 o.0
        → Ends db.vms (roll_back host db (continue (claim host vcpus mem_mib image ports) o)).0
    search_ends (ok f, v) db found e up same sound h = found_claim-Ends f db v up same sound h
    search_ends (err x, v) db found e up same sound h = cc

    -- On a host whose database answers, an allocation in a ledger succeeds, unless all 1000 slots
    -- are taken, and then it reports that.
    pub allocate_and_insert-Ends :
        (w : World)
        → IsSqlUp host
        → IsLedger w.db.vms
        → Ends w.db.vms (allocate_and_insert host vcpus mem_mib image ports w).0
    unfolding allocate_and_insert or_rollback
    allocate_and_insert-Ends w up sound =
        let begun = logged (sql begin_immediate) w in
        let (found, e) = find_slot-ok host slots 0 begun up in
        rw (sql-ok host begin_immediate w up) (
          search_ends (find_slot host slots 0 begun) w.db found e up
            (find_slot-db host slots 0 begun) sound (find_slot-Found host slots 0 begun))
