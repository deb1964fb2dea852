-- ===== src/Cmd/Ports/Range.antt =====
-- The ports that `ports add` and `ports rm` store are in the range of an int.
use firecracker_lab.Prelude.{
  Text, ℕ, ℤ, ◌≡◌, Bool, true, false, Option, none, some, List, [], ◌∷◌, ◌==◌, int_eq, arith, inl,
  inr, Bool-cases, nat_eq,
}
use firecracker_lab.Prelude.Lists.{All}
use firecracker_lab.State.Ports.RoundTrip.{IsInt}
use firecracker_lab.State.Ports.Range.{to_int-IsInt}
use firecracker_lab.Cmd.Ports.{atoi, unsigned, in_range, atoi_digits, without}

in_range-IsInt : (negative : Bool) (n : Option ℕ) (z : ℤ) → in_range negative n ≡ some z → IsInt z
unfolding in_range
in_range-IsInt negative none z h = absurd cc
in_range-IsInt negative (some n) z h = to_int-IsInt negative n z h

unsigned-IsInt : (negative : Bool) (s : Text) (z : ℤ) → unsigned negative s ≡ some z → IsInt z
unfolding unsigned
unsigned-IsInt negative [] z h = absurd cc
unsigned-IsInt negative (c ∷ s) z h = in_range-IsInt negative (atoi_digits 0 (c ∷ s)) z h

-- `strconv.Atoi` gives an integer of 64 bits.
pub atoi-IsInt : (s : Text) (z : ℤ) → atoi s ≡ some z → IsInt z
unfolding atoi
atoi-IsInt [] z h = absurd cc
atoi-IsInt (c ∷ s) z h = elim (Bool-cases (c == b'-')) [
  | inl minus ↦ unsigned-IsInt true s z (ground (arith, minus, h))
  | inr other ↦ elim (Bool-cases (c == b'+')) [
    | inl plus ↦ unsigned-IsInt false s z (ground (arith, other, plus, h))
    | inr plain ↦ unsigned-IsInt false (c ∷ s) z (ground (arith, other, plain, h))
  ]
]

pub without-All : (port : ℤ) (ports : List ℤ) → All IsInt ports → All IsInt (without port ports)
unfolding without
without-All port [] h = tt
without-All port (p ∷ ports) (h, k) = elim (Bool-cases (p == port)) [
  | inl same ↦ rw same (without-All port ports k)
  | inr other ↦ rw other (h, without-All port ports k)
]
