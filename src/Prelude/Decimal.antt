-- ===== src/Prelude/Decimal.antt =====
-- `fmt.Sprintf("%d", n)`: the shortest decimal digits of a number.
use firecracker_lab.Prelude.Branch.{Text, ℤ, pos, negsuc, ltb, if◌then◌else◌, Bool-cases}
use Prim.Native.Nat.{ℕ, zero, suc, ◌+◌, ◌-◌, ◌*◌, ◌/◌, ◌%◌, ◌≤◌, ◌<◌}
use mathlib.Core.Path.{◌≡◌, refl, ap, sym, ◌∙◌}
use mathlib.Core.Logic.{◌≢◌, inl, inr}
use mathlib.Core.List.{[], ◌∷◌, ◌++◌, cons-ne-nil, concat-ne-nil}
use native.Mathlib.Omega.{arith}
use firecracker_lab.Prelude.Lists.{All, All-append}

-- The fuel is a bound on the number; each round drops a digit.
digits_within : ℕ → ℕ → Text
digits_within zero n = []
digits_within (suc fuel) n =
    let rest = digits_within fuel (n / 10) in
    if ltb n 10 then (b'0' + n) ∷ [] else rest ++ (b'0' + n % 10) ∷ []

unfoldable pub digits : ℕ → Text
unfolding digits_within
digits n = digits_within (suc n) n

unfoldable pub format_int : ℤ → Text
unfolding digits
format_int (pos n) = digits n
format_int (negsuc n) = b'-' ∷ digits (suc n)

abbrev pub IsDigit : ℕ → Type 0
IsDigit c = (b'0' ≤ c) × (c ≤ b'9')

-- The number that digits spell behind `acc`.
abbrev pub value : ℕ → Text → ℕ
value acc [] = acc
value acc (c ∷ s) = value (acc * 10 + (c - b'0')) s

pub value-append : (acc : ℕ) (s t : Text) → value acc (s ++ t) ≡ value (value acc s) t
value-append acc [] t = refl
value-append acc (c ∷ s) t = value-append (acc * 10 + (c - b'0')) s t

value-digits_within : (fuel n : ℕ) → n < fuel → value 0 (digits_within fuel n) ≡ n
unfolding digits_within
value-digits_within zero n h = elim h [ ]
value-digits_within (suc fuel) n h = elim (Bool-cases (ltb n 10)) [
  | inl small ↦ rw small (omega arith)
  | inr large ↦
      rw (large, value-append, value-digits_within fuel (n / 10) (ground arith)) (omega arith)
]

-- The digits of a number spell it.
pub value-digits : (n : ℕ) → value 0 (digits n) ≡ n
unfolding digits
value-digits n = value-digits_within (suc n) n (omega arith)

-- Two numbers with the same digits are equal.
pub digits_injective : (m n : ℕ) → digits m ≡ digits n → m ≡ n
digits_injective m n h = sym (value-digits m) ∙ ap (value 0) h ∙ value-digits n

digits_within-All : (fuel n : ℕ) → All IsDigit (digits_within fuel n)
unfolding digits_within
digits_within-All zero n = tt
digits_within-All (suc fuel) n = elim (Bool-cases (ltb n 10)) [
  | inl small ↦ rw small (ground arith)
  | inr large ↦ rw large (
      All-append IsDigit (digits_within fuel (n / 10)) _ (digits_within-All fuel (n / 10))
        (omega arith))
]

pub digits-All : (n : ℕ) → All IsDigit (digits n)
unfolding digits
digits-All n = digits_within-All (suc n) n

pub digits-ne-nil : (n : ℕ) → digits n ≢ []
unfolding digits
digits-ne-nil n = elim (Bool-cases (ltb n 10)) [
  | inl small ↦ rw small (cons-ne-nil _ _)
  | inr large ↦ rw large (concat-ne-nil _ _)
]

digits_within_fuel : (f g n : ℕ) → n < f → n < g → digits_within f n ≡ digits_within g n
unfolding digits_within
digits_within_fuel zero g n h k = elim h [ ]
digits_within_fuel (suc f) zero n h k = elim k [ ]
digits_within_fuel (suc f) (suc g) n h k = elim (Bool-cases (ltb n 10)) [
  | inl small ↦ rw small
  | inr large ↦ rw (large, digits_within_fuel f g (n / 10) (ground arith) (ground arith))
]

pub digits_small : (n : ℕ) → n < 10 → digits n ≡ (b'0' + n) ∷ []
unfolding digits
digits_small n h = ground arith

-- The digits of a larger number are those of a tenth of it and one more.
pub digits_step : (n : ℕ) → 10 ≤ n → digits n ≡ digits (n / 10) ++ (b'0' + n % 10) ∷ []
unfolding digits
digits_step n h =
    rw (digits_within_fuel (suc (n / 10)) n (n / 10) (omega arith) (omega arith)) (ground arith)
