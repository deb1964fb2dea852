-- ===== src/State/Vms/Allocate.antt =====
-- What `AllocateAndInsert` promises.
use mathlib.Core.Path.{subst}
use firecracker_lab.Prelude.{
  Text, ℕ, ℤ, ◌<◌, ◌≡◌, refl, false, Option, none, some, List, [], ◌∷◌, ◌++◌, inl, inr, Bool-cases,
}
use firecracker_lab.World.{
  sql, begin_immediate, commit, insert_vm, Host, Result, ok, err, World, logged, call-cases,
  continue,
}
use firecracker_lab.World.Rows.{VmRow, Db}
use firecracker_lab.State.Names.{tap_name}
use firecracker_lab.State.Vms.{
  Vm, has_tap, clashes, new_vm, new_row, slots, null_if_empty, or_empty, find_slot, claim,
  roll_back, allocate_and_insert,
}
use firecracker_lab.State.Vms.Slots.{Taken, Found, find_slot-Found, find_slot-db}

module _ (vcpus mem_mib : ℤ) (image : Text) (ports : Option (List ℤ)) where
  -- The row of slot i.
  abbrev pub row_of : ℕ → VmRow
  row_of i = new_row (new_vm i vcpus mem_mib (or_empty ports)) (null_if_empty image)

  -- What an allocation at database `db` has done, by how it ended.
  abbrev pub Allocated : Db → Result Vm × World → Type 0
  Allocated db (ok v, w) =
      (i : ℕ) × (i < slots)
      × (has_tap (tap_name i) db.vms ≡ false)
      × Taken db.vms 0 i
      × (v ≡ new_vm i vcpus mem_mib (or_empty ports))
      × (w.db ≡ record db { vms = db.vms ++ row_of i ∷ [] })
  Allocated db (err e, w) = w.db ≡ db

  module _ (host : Host) where
    -- The world behind the INSERT.
    abbrev pub inserted : ℕ → World → World
    inserted i w = record (logged (sql (insert_vm (row_of i).id)) w) {
      db = record w.db { vms = w.db.vms ++ row_of i ∷ [] };
    }

    insert_claim :
        (i : ℕ) (w : World)
        → i < slots
        → has_tap (tap_name i) w.db.vms ≡ false
        → Taken w.db.vms 0 i
        → Allocated w.db (roll_back host w.db (claim host vcpus mem_mib image ports (some i) w))
    unfolding roll_back claim
    insert_claim i w lt free below = elim (call-cases host (sql (insert_vm (row_of i).id)) w) [
      | inl e ↦ rw e refl
      | inr e ↦ rw e (elim (Bool-cases (clashes (row_of i) w.db.vms)) [
        | inl clash ↦ rw clash refl
        | inr fine ↦ rw fine (elim (call-cases host (sql commit) (inserted i w)) [
          | inl e' ↦ rw e' refl
          | inr e' ↦ rw e' (i, lt, free, below, refl, refl)
        ])
      ])
    ]

    Found-claim :
        (r : Result (Option ℕ)) (db : Db) (v : World)
        → v.db ≡ db
        → Found db.vms slots 0 r
        → Allocated db (roll_back host db (continue (claim host vcpus mem_mib image ports) (r, v)))
    Found-claim (err e) db v same found = unfold roll_back in refl
    Found-claim (ok none) db v same found = unfold roll_back claim in refl
    Found-claim (ok (some i)) db v same found =
        subst
          (λ d.
            Found d.vms slots 0 (ok (some i))
            → Allocated d (roll_back host d (claim host vcpus mem_mib image ports (some i) v)))
          same (λ (_, lt, free, below). insert_claim i v lt free below) found

    -- An allocation takes the lowest index whose tap is free, writes one row for it at the end of
    -- the table and changes nothing else; one that fails, at whatever step, changes nothing.
    pub allocate_and_insert-Allocated :
        (w : World) → Allocated w.db (allocate_and_insert host vcpus mem_mib image ports w)
    unfolding allocate_and_insert
    allocate_and_insert-Allocated w = elim (call-cases host (sql begin_immediate) w) [
      | inl e ↦ rw e refl
      | inr e ↦ rw e (
          let begun = logged (sql begin_immediate) w in
          Found-claim (find_slot host slots 0 begun).0 w.db (find_slot host slots 0 begun).1
            (find_slot-db host slots 0 begun) (find_slot-Found host slots 0 begun))
    ]
