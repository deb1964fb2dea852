-- ===== src/State/Ports/RoundTrip.antt =====
-- What is written to the ports column is read back.
use mathlib.Core.List.{append_assoc}
use firecracker_lab.Prelude.{
  Text, ℕ, zero, suc, ℤ, pos, negsuc, ◌+◌, ◌*◌, ◌/◌, ◌%◌, ◌<◌, ◌≤◌, Bool, true, false, Option, none,
  some, List, [], ◌∷◌, ◌++◌, ◌≡◌, refl, ap, ◌∙◌, ◌⊎◌, ltb, inl, inr, arith, Bool-cases, ℕ_discrete,
}
use firecracker_lab.Prelude.Lists.{All}
use firecracker_lab.Prelude.Decimal.{digits, digits_small, digits_step, format_int}
use firecracker_lab.State.Ports.{
  Mode, scan_ports, prepend, opened, wanted, signed, number, closed, marshal_ports, marshal_rest,
  unmarshal_ports, max_int,
}

-- In a mode that waits for the first digit of a number.
abbrev IsFirst : Bool → Mode → Type 0
IsFirst negative m =
    (d : ℕ) (rest : Text)
    → d < 10
    → scan_ports m ((b'0' + d) ∷ rest) ≡ scan_ports (number negative d) rest

prepend-nil : (o : Option (List ℤ)) → prepend [] o ≡ o
unfolding prepend
prepend-nil none = refl
prepend-nil (some more) = refl

opened-IsFirst : IsFirst false opened
unfolding scan_ports
opened-IsFirst d rest h = ground (arith, prepend-nil (scan_ports (number false d) rest))

wanted-IsFirst : IsFirst false wanted
unfolding scan_ports
wanted-IsFirst d rest h = ground (arith, prepend-nil (scan_ports (number false d) rest))

signed-IsFirst : IsFirst true signed
unfolding scan_ports
signed-IsFirst d rest h = ground (arith, prepend-nil (scan_ports (number true d) rest))

number_next :
    (negative : Bool) (n d : ℕ) (rest : Text)
    → 0 < n
    → d < 10
    → scan_ports (number negative n) ((b'0' + d) ∷ rest)
      ≡ scan_ports (number negative (n * 10 + d)) rest
unfolding scan_ports
number_next negative n d rest h k =
    ground (arith, prepend-nil (scan_ports (number negative (n * 10 + d)) rest))

-- Over the digits of a number the scanner computes its value.
scan_within :
    (fuel : ℕ) (negative : Bool) (m : Mode) (n : ℕ) (rest : Text)
    → IsFirst negative m
    → n < fuel
    → scan_ports m (digits n ++ rest) ≡ scan_ports (number negative n) rest
scan_within zero negative m n rest first h = elim h [ ]
scan_within (suc fuel) negative m n rest first h = elim (Bool-cases (ltb n 10)) [
  | inl small ↦ rw (digits_small n (ground arith)) (first n rest (ground arith))
  | inr large ↦
      rw (digits_step n (ground arith), append_assoc)
        (scan_within fuel negative m (n / 10) _ first (ground arith)
          ∙ number_next negative (n / 10) (n % 10) rest (ground arith) (omega arith)
          ∙ ap (λ k. scan_ports (number negative k) rest) (omega arith))
]

scan-digits :
    (negative : Bool) (m : Mode) (n : ℕ) (rest : Text)
    → IsFirst negative m
    → scan_ports m (digits n ++ rest) ≡ scan_ports (number negative n) rest
scan-digits negative m n rest first = scan_within (suc n) negative m n rest first (omega arith)

-- An integer that fits 64 bits.
abbrev pub IsInt : ℤ → Type 0
IsInt (pos n) = n ≤ max_int
IsInt (negsuc n) = n ≤ max_int

-- Modes in which an element may begin.
abbrev Begins : Mode → Type 0
Begins m = IsFirst false m × ((rest : Text) → scan_ports m (b'-' ∷ rest) ≡ scan_ports signed rest)

number-end :
    (p : ℤ) (m : Mode) (c : ℕ) (next : Mode) (rest : Text)
    → Begins m
    → IsInt p
    → ((c ≡ b',') × (next ≡ wanted)) ⊎ ((c ≡ b']') × (next ≡ closed))
    → scan_ports m (format_int p ++ c ∷ rest) ≡ prepend (p ∷ []) (scan_ports next rest)
unfolding format_int scan_ports
number-end (pos n) m c next rest (first, minus) fits at =
    scan-digits false m n (c ∷ rest) first ∙ ground arith
number-end (negsuc n) m c next rest (first, minus) fits at =
    minus _ ∙ scan-digits true signed (suc n) (c ∷ rest) signed-IsFirst ∙ ground arith

begins : Begins opened × Begins wanted
unfolding scan_ports ℕ_discrete
begins = (
  (opened-IsFirst, λ rest. prepend-nil (scan_ports signed rest)),
  (wanted-IsFirst, λ rest. prepend-nil (scan_ports signed rest)),
)

scan-marshal_rest :
    (p : ℤ) (ps : List ℤ) (m : Mode)
    → Begins m
    → All IsInt (p ∷ ps)
    → scan_ports m (format_int p ++ marshal_rest ps) ≡ some (p ∷ ps)
unfolding marshal_rest
scan-marshal_rest p [] m start (fits, _) =
    number-end p m b']' closed [] start fits (inr (refl, refl)) ∙ unfold scan_ports prepend in refl
scan-marshal_rest p (q ∷ ps) m start (fits, more) =
    number-end p m b',' wanted _ start fits (inl (refl, refl))
    ∙ ap (prepend (p ∷ [])) (scan-marshal_rest q ps wanted begins.1 more)
    ∙ unfold prepend in refl

-- A list of 64-bit integers is read back from the text that is stored for it.
pub unmarshal_ports-marshal_ports :
    (ps : List ℤ) → All IsInt ps → unmarshal_ports (marshal_ports ps) ≡ some ps
unfolding unmarshal_ports marshal_ports scan_ports ℕ_discrete
unmarshal_ports-marshal_ports [] fits = refl
unmarshal_ports-marshal_ports (p ∷ ps) fits =
    prepend-nil (scan_ports opened (format_int p ++ marshal_rest ps))
    ∙ scan-marshal_rest p ps opened begins.0 fits
