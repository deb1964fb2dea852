-- ===== src/Cmd/Vms/Started.antt =====
-- What `labctl run` does to the vms table.
use mathlib.Core.Path.{subst}
use firecracker_lab.Prelude.{
  Text, codes, ℕ, zero, suc, ℤ, ◌<◌, ◌≡◌, refl, ◌∙◌, ap, Bool, true, false, none, List, [], ◌∷◌,
  ◌++◌, ◌⊎◌, inl, inr, arith,
}
use firecracker_lab.Agent.{Codec}
use firecracker_lab.World.{Host, Error, Result, ok, err, World, ⊤, wrapping}
use firecracker_lab.World.Rows.{VmRow, Image, Db}
use firecracker_lab.World.Keeps.{wrapping-Keeps}
use firecracker_lab.World.Ends.{step, Keeps-at, wrapping-ok, wrapping-err}
use firecracker_lab.State.Names.{tap_name}
use firecracker_lab.State.Vms.{new_vm, has_tap, or_empty, slots, allocate_and_insert}
use firecracker_lab.State.Vms.Slots.{Taken}
use firecracker_lab.State.Vms.Allocate.{row_of, Allocated, allocate_and_insert-Allocated}
use firecracker_lab.Runner.{Runner}
use firecracker_lab.Runner.Lifecycle
use firecracker_lab.Runner.Lifecycle.Unrecorded.{run_vm-Keeps}
use firecracker_lab.Cmd.{Config, load, new_runner}
use firecracker_lab.Cmd.Lookup.{new_runner-IsReal}
use firecracker_lab.Cmd.Vms.{run_vms, resolve_image}

has_tap-last : (r : VmRow) (rows : List VmRow) → has_tap r.tap (rows ++ r ∷ []) ≡ true
unfolding has_tap
has_tap-last r [] = ground arith
has_tap-last r (s ∷ rows) = ground (arith, has_tap-last r rows)

module _ (host : Host) (codec : Codec) (cfg : Config) (jailer_bin : Text)
    (uid gid vcpus mem_mib : ℤ) (attach : Bool) where
  abbrev runner : Runner
  runner = new_runner cfg jailer_bin uid gid

  -- The slot is the lowest one whose tap is free.
  abbrev pub IsLowest : ℕ → List VmRow → Type 0
  IsLowest i rows = (i < slots) × (has_tap (tap_name i) rows ≡ false) × Taken rows 0 i

  abbrev pub row_for : Image → ℕ → VmRow
  row_for img i = row_of vcpus mem_mib img.id none i

  -- From a world with these rows, the VM of a slot was run from the image, with this outcome.
  abbrev pub RunFrom : Image → ℕ → List VmRow → Result ⊤ → Type 0
  RunFrom img i rows r =
      (x : World) × (y : World) × (x.db.vms ≡ rows)
      × (Lifecycle.run_vm host codec runner (new_vm i vcpus mem_mib (or_empty none)) img.path attach
            x
          ≡ (r, y))

  -- The table has grown by n rows, each for the lowest slot that was free, and each for a VM that
  -- was then run from the image without an error.
  pub data Appended (img : Image) : ℕ → List VmRow → List VmRow → Type 0 where
    no_rows : {rows : List VmRow} → Appended img 0 rows rows
    one_row :
        {n : ℕ} {rows rows' : List VmRow} (i : ℕ)
        → IsLowest i rows
        → RunFrom img i (rows ++ row_for img i ∷ []) (ok tt)
        → Appended img n (rows ++ row_for img i ∷ []) rows'
        → Appended img (suc n) rows rows'

  -- The allocation failed at these rows, which stay.
  abbrev pub Refused : Image → List VmRow → World → Type 0
  Refused img rows w =
      (e : Error) × (x : World) × (y : World) × (w.db.vms ≡ rows)
      × (x.db.vms ≡ rows)
      × (allocate_and_insert host vcpus mem_mib img.id none x ≡ (err e, y))

  -- A VM was allocated and failed to run, and its row is left behind these rows.
  abbrev pub LeftBehind : Image → List VmRow → World → Type 0
  LeftBehind img rows w =
      (i : ℕ) × (e : Error) × IsLowest i rows
      × (w.db.vms ≡ rows ++ row_for img i ∷ [])
      × RunFrom img i (rows ++ row_for img i ∷ []) (err e)

  -- What n rounds have done to the table `rows`, by how they ended.
  abbrev pub Started : Image → ℕ → List VmRow → Result ⊤ × World → Type 0
  Started img n rows (ok a, w) = Appended img n rows w.db.vms
  Started img n rows (err e, w) =
      (k : ℕ) × (grown : List VmRow) × (k < n)
      × Appended img k rows grown
      × (Refused img grown w ⊎ LeftBehind img grown w)

  -- One more round in front.
  more :
      (img : Image) (n i : ℕ) (rows : List VmRow) (o : Result ⊤ × World)
      → IsLowest i rows
      → RunFrom img i (rows ++ row_for img i ∷ []) (ok tt)
      → Started img n (rows ++ row_for img i ∷ []) o
      → Started img (suc n) rows o
  more img n i rows (ok a, w) lowest ran h = Appended.one_row i lowest ran h
  more img n i rows (err e, w) lowest ran (k, grown, less, h, why) =
      (suc k, grown, ground (arith, less), Appended.one_row i lowest ran h, why)

  pub run_vms-Started :
      (img : Image) (n : ℕ) (w : World)
      → Started img n w.db.vms (run_vms host codec cfg runner vcpus mem_mib attach img n w)
  unfolding run_vms
  run_vms-Started img zero w = Appended.no_rows
  run_vms-Started img (suc n) w =
      let Q = Started img (suc n) w.db.vms in
      let rows_of : (db : Db) → List VmRow = λ db. db.vms in
      let allocated = allocate_and_insert-Allocated vcpus mem_mib img.id none host w in
      (step (allocate_and_insert host vcpus mem_mib img.id none) _ w Q
        (λ v v1 e1.
          let (i, lt, free, below, made, stored) =
            subst (Allocated vcpus mem_mib img.id none w.db) e1 allocated in
          let m = Lifecycle.run_vm host codec runner v img.path attach in
          let keeps = wrapping-Keeps (codes "run " ++ v.id) m (
            run_vm-Keeps host codec runner (new_runner-IsReal cfg jailer_bin uid gid) v img.path
              attach) in
          step (wrapping (codes "run " ++ v.id) m) _ v1 Q
            (λ _ y e. record {
              ends =
                  more img n i w.db.vms _ (lt, free, below)
                    (
                      v1,
                      y,
                      ap rows_of stored,
                      subst
                          (λ u.
                            Lifecycle.run_vm host codec runner u img.path attach v1 ≡ (ok tt, y))
                          made (wrapping-ok (codes "run " ++ v.id) m v1 e),
                    )
                    (subst
                      (λ rows.
                        Started img n rows
                          (run_vms host codec cfg runner vcpus mem_mib attach img n y))
                      (ap rows_of (Keeps-at keeps e ∙ stored)) (run_vms-Started img n y));
            })
            (λ x y e.
              let (x', failed_at) = wrapping-err (codes "run " ++ v.id) m v1 e in
              (
                0,
                w.db.vms,
                omega arith,
                Appended.no_rows,
                inr (
                  i,
                  x',
                  (lt, free, below),
                  ap rows_of (Keeps-at keeps e ∙ stored),
                  (
                    v1,
                    y,
                    ap rows_of stored,
                    subst
                        (λ u. Lifecycle.run_vm host codec runner u img.path attach v1 ≡ (err x', y))
                        made failed_at,
                  ),
                ),
              )))
        (λ x v1 e1. (
          0,
          w.db.vms,
          omega arith,
          Appended.no_rows,
          inl (
            x,
            w,
            v1,
            ap rows_of (subst (Allocated vcpus mem_mib img.id none w.db) e1 allocated),
            refl,
            e1,
          ),
        ))).ends

  -- From a world with these rows, the image of the flag was resolved, with this outcome.
  abbrev pub Resolved : Text → List VmRow → Result Image → Type 0
  Resolved image rows r =
      (x : World) × (y : World) × (x.db.vms ≡ rows)
      × (resolve_image host codec cfg image x ≡ (r, y))

  -- From a world with these rows, the database could not be opened.
  abbrev pub Unopened : List VmRow → Type 0
  Unopened rows =
      (x : World) × (y : World) × (e : Error) × (x.db.vms ≡ rows) × (load host x ≡ (err e, y))

  -- What `run` has done to the table `rows`, by how it ended.
  abbrev pub Run : Text → ℕ → List VmRow → Result ⊤ × World → Type 0
  Run image n rows (ok a, w) =
      (img : Image) × Resolved image rows (ok img) × Started img n rows (ok a, w)
  Run image n rows (err e, w) =
      ((w.db.vms ≡ rows) × (Unopened rows ⊎ ((x : Error) × Resolved image rows (err x))))
      ⊎ ((img : Image) × Resolved image rows (ok img) × Started img n rows (err e, w))
