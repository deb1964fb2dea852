-- ===== src/State/Ports/Range.antt =====
-- Whatever is read from a ports column is in the range of an int.
use mathlib.Core.Path.{subst}
use firecracker_lab.Prelude.{
  Text, ℕ, zero, suc, ℤ, pos, negsuc, Bool, true, false, Option, none, some, List, [], ◌∷◌, ◌≡◌,
  nat_eq, inl, inr, arith, if◌then◌else◌, Bool-cases, Option-cases,
}
use firecracker_lab.Prelude.Lists.{All, All-append}
use firecracker_lab.State.Ports.{
  Mode, start, opened, wanted, signed, number, after, closed, to_int, ended, quiet, first,
  first_digit, is_digit, scan_byte, scan_ports, prepend, unmarshal_ports,
}
use firecracker_lab.State.Ports.RoundTrip.{IsInt}

-- Every element of a result, if there is one.
abbrev Fits : Option (Mode × List ℤ) → Type 0
Fits none = Unit
Fits (some (m, zs)) = All IsInt zs

pub to_int-IsInt : (negative : Bool) (n : ℕ) (z : ℤ) → to_int negative n ≡ some z → IsInt z
unfolding to_int
to_int-IsInt false n (pos m) h = ground arith
to_int-IsInt false n (negsuc m) h = ground arith
to_int-IsInt true zero (pos m) h = ground arith
to_int-IsInt true zero (negsuc m) h = ground arith
to_int-IsInt true (suc n) (pos m) h = ground arith
to_int-IsInt true (suc n) (negsuc m) h = ground arith

ended-Fits : (negative : Bool) (n : ℕ) (next : Mode) → Fits (ended negative n next)
unfolding ended
ended-Fits negative n next = elim (Option-cases (to_int negative n)) [
  | inl e ↦ rw (ended, e) tt
  | inr (z, e) ↦ rw (ended, e) (to_int-IsInt negative n z e, tt)
]

first-Fits : (negative : Bool) (c : ℕ) → Fits (first negative c)
unfolding first first_digit
first-Fits negative c = elim (Bool-cases (is_digit c)) [
  | inl e ↦ rw (first, first_digit, e) tt
  | inr e ↦ rw (first, first_digit, e) tt
]

if-Fits : (b : Bool) (x y : Option (Mode × List ℤ)) → Fits x → Fits y → Fits (if b then x else y)
if-Fits true x y h k = h
if-Fits false x y h k = k

scan_byte-Fits : (m : Mode) (c : ℕ) → Fits (scan_byte m c)
unfolding scan_byte quiet
scan_byte-Fits start c = search (if-Fits, tt)
scan_byte-Fits opened c = search (if-Fits, first-Fits, tt)
scan_byte-Fits wanted c = search (if-Fits, first-Fits, tt)
scan_byte-Fits signed c = first-Fits true c
scan_byte-Fits (number negative n) c = search (if-Fits, ended-Fits, tt) depth 8
scan_byte-Fits after c = search (if-Fits, tt)
scan_byte-Fits closed c = search (if-Fits, tt)

abbrev AllFit : Option (List ℤ) → Type 0
AllFit none = Unit
AllFit (some zs) = All IsInt zs

prepend-AllFit :
    (zs : List ℤ) (o : Option (List ℤ)) → All IsInt zs → AllFit o → AllFit (prepend zs o)
unfolding prepend
prepend-AllFit zs none h k = tt
prepend-AllFit zs (some more) h k = All-append IsInt zs more h k

scanned-AllFit :
    (s : Text) (o : Option (Mode × List ℤ))
    → Fits o
    → ((m : Mode) → AllFit (scan_ports m s))
    → AllFit (elim o [ none ↦ none | some (m', zs) ↦ prepend zs (scan_ports m' s) ])
scanned-AllFit s none h k = tt
scanned-AllFit s (some (m, zs)) h k = prepend-AllFit zs (scan_ports m s) h (k m)

scan_ports-AllFit : (m : Mode) (s : Text) → AllFit (scan_ports m s)
unfolding scan_ports
scan_ports-AllFit start [] = tt
scan_ports-AllFit opened [] = tt
scan_ports-AllFit wanted [] = tt
scan_ports-AllFit signed [] = tt
scan_ports-AllFit (number negative n) [] = tt
scan_ports-AllFit after [] = tt
scan_ports-AllFit closed [] = tt
scan_ports-AllFit m (c ∷ s) =
    scanned-AllFit s (scan_byte m c) (scan_byte-Fits m c) (λ m'. scan_ports-AllFit m' s)

-- Each port that a text is read as is an integer of 64 bits.
pub unmarshal_ports-AllFit :
    (s : Text) (ports : List ℤ) → unmarshal_ports s ≡ some ports → All IsInt ports
unfolding unmarshal_ports
unmarshal_ports-AllFit s ports h = subst AllFit h (scan_ports-AllFit start s)
