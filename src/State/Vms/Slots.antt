-- ===== src/State/Vms/Slots.antt =====
-- The search for a free slot (`AllocateAndInsert`, the loop over 1000 indices).
use native.Mathlib.Decide.{dec_lt}
use mathlib.Core.Path.{subst}
use firecracker_lab.Prelude.{
  ℕ, zero, suc, ◌+◌, ◌≤◌, ◌<◌, ◌≡◌, refl, true, false, Option, none, some, List, inl, inr, arith,
  Bool-cases,
}
use firecracker_lab.World.{sql, select_tap, Host, Result, ok, err, World, call-cases}
use firecracker_lab.World.Rows.{VmRow}
use firecracker_lab.State.Names.{tap_name}
use firecracker_lab.State.Vms.{has_tap, find_slot}

-- Every index from i on, up to j, is taken.
abbrev pub Taken : List VmRow → ℕ → ℕ → Type 0
Taken rows i j = (k : ℕ) → i ≤ k → k < j → has_tap (tap_name k) rows ≡ true

-- What the search over `left` indices from i on returns.
abbrev pub Found : List VmRow → ℕ → ℕ → Result (Option ℕ) → Type 0
Found rows left i (ok none) = Taken rows i (i + left)
Found rows left i (ok (some j)) =
    (i ≤ j) × (j < i + left) × (has_tap (tap_name j) rows ≡ false) × Taken rows i j
Found rows left i (err e) = Unit

Taken-step :
    (rows : List VmRow) (i j : ℕ)
    → has_tap (tap_name i) rows ≡ true
    → Taken rows (suc i) j
    → Taken rows i j
Taken-step rows i j h t k lo hi = elim (dec_lt i k) [
  | yes p ↦ t k p hi
  | no p ↦ subst (λ n. has_tap (tap_name n) rows ≡ true) (omega arith) h
]

Found-step :
    (rows : List VmRow) (left i : ℕ) (r : Result (Option ℕ))
    → has_tap (tap_name i) rows ≡ true
    → Found rows left (suc i) r
    → Found rows (suc left) i r
Found-step rows left i (ok none) h t =
    subst (Taken rows i) (omega arith) (Taken-step rows i (suc i + left) h t)
Found-step rows left i (ok (some j)) h (lo, hi, free, t) =
    (omega arith, omega arith, free, Taken-step rows i j h t)
Found-step rows left i (err e) h t = tt

module _ (host : Host) where
  -- The search finds the lowest free index of its range, or shows that there is none.
  pub find_slot-Found : (left i : ℕ) (w : World) → Found w.db.vms left i (find_slot host left i w).0
  unfolding find_slot
  find_slot-Found zero i w = λ k lo hi. absurd (omega arith)
  find_slot-Found (suc left) i w = elim (call-cases host (sql (select_tap (tap_name i))) w) [
    | inl e ↦ rw e tt
    | inr e ↦ rw e (elim (Bool-cases (has_tap (tap_name i) w.db.vms)) [
      | inl taken ↦ rw taken (Found-step w.db.vms left i _ taken (find_slot-Found left (suc i) _))
      | inr free ↦ rw free (omega arith, omega arith, free, λ k lo hi. absurd (omega arith))
    ])
  ]

  -- The search writes nothing.
  pub find_slot-db : (left i : ℕ) (w : World) → (find_slot host left i w).1.db ≡ w.db
  unfolding find_slot
  find_slot-db zero i w = refl
  find_slot-db (suc left) i w = elim (call-cases host (sql (select_tap (tap_name i))) w) [
    | inl e ↦ rw e
    | inr e ↦ rw e (elim (Bool-cases (has_tap (tap_name i) w.db.vms)) [
      | inl taken ↦ rw taken (find_slot-db left (suc i) _)
      | inr free ↦ rw free
    ])
  ]
