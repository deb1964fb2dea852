-- ===== src/Cmd/Listing/Bytes.antt =====
-- What formatBytes (cmd/list.go) prints.
use firecracker_lab.Prelude.{
  Text, codes, ℕ, ◌+◌, ◌/◌, ◌^◌, ◌≤◌, ◌<◌, ◌≡◌, refl, true, false, Option, some, ◌∷◌, ◌++◌, ltb,
  inl, inr, arith, Bool-cases,
}
use firecracker_lab.Cmd.Listing.{
  ratio, letter, unit_letters, scale_loop, scaled, with_unit, format_bytes,
}

-- How formatBytes prints a number of at least 1024: in the unit that leaves a quotient from 1 to 1023.
pub record InUnit (b : ℕ) (printed : Option Text) : Type 0 where
  pub exp : ℕ
  pub unit : ℕ
  pub unit_eq : letter exp unit_letters ≡ some unit
  pub at_least : 1024 ^ (exp + 1) ≤ b
  pub below : b < 1024 ^ (exp + 2)
  pub printed_eq : printed ≡ some (ratio b (1024 ^ (exp + 1)) ++ (unit ∷ codes "iB"))

large : (b : ℕ) → 1024 ≤ b → ltb b 1024 ≡ false
large b k = ground arith

-- After `k` rounds that left 1024 or more, the loop ends.
pub format_bytes-InUnit : (b : ℕ) → b < 2 ^ 64 → 1024 ≤ b → InUnit b (format_bytes b)
unfolding format_bytes scaled scale_loop with_unit letter
format_bytes-InUnit b h k = rw (large b k) (elim (Bool-cases (ltb (b / 1024) 1024)) [
  | inl s ↦ rw s (record {
    exp = 0;
    unit = b'K';
    unit_eq = refl;
    at_least = ground arith;
    below = ground arith;
    printed_eq = refl;
  })
  | inr l ↦ rw l (elim (Bool-cases (ltb ((b / 1024 / 1024)) 1024)) [
    | inl s ↦ rw s (record {
      exp = 1;
      unit = b'M';
      unit_eq = refl;
      at_least = ground arith;
      below = ground arith;
      printed_eq = refl;
    })
    | inr l ↦ rw l (elim (Bool-cases (ltb (((b / 1024 / 1024) / 1024)) 1024)) [
      | inl s ↦ rw s (record {
        exp = 2;
        unit = b'G';
        unit_eq = refl;
        at_least = ground arith;
        below = ground arith;
        printed_eq = refl;
      })
      | inr l ↦ rw l (elim (Bool-cases (ltb ((((b / 1024 / 1024) / 1024) / 1024)) 1024)) [
        | inl s ↦ rw s (record {
          exp = 3;
          unit = b'T';
          unit_eq = refl;
          at_least = ground arith;
          below = ground arith;
          printed_eq = refl;
        })
        | inr l ↦
            rw l (elim (Bool-cases (ltb (((((b / 1024 / 1024) / 1024) / 1024) / 1024)) 1024)) [
              | inl s ↦ rw s (record {
                exp = 4;
                unit = b'P';
                unit_eq = refl;
                at_least = ground arith;
                below = ground arith;
                printed_eq = refl;
              })
              | inr l ↦
                  rw l
                    (elim (Bool-cases
                      (ltb ((((((b / 1024 / 1024) / 1024) / 1024) / 1024) / 1024)) 1024)) [
                        | inl s ↦ rw s (record {
                          exp = 5;
                          unit = b'E';
                          unit_eq = refl;
                          at_least = ground arith;
                          below = ground arith;
                          printed_eq = refl;
                        })
                        | inr l ↦ absurd (ground arith)
                      ])
            ])
      ])
    ])
  ])
])

small : (b : ℕ) → b < 1024 → ltb b 1024 ≡ true
small b k = ground arith

-- formatBytes does not panic on a uint64.
pub format_bytes-some : (b : ℕ) → b < 2 ^ 64 → (printed : Text) × (format_bytes b ≡ some printed)
format_bytes-some b h = elim (Bool-cases (ltb b 1024)) [
  | inl s ↦ unfold format_bytes in rw s (_, refl)
  | inr l ↦ let u = format_bytes-InUnit b h (ground (arith, l)) in (_, u.printed_eq)
]
