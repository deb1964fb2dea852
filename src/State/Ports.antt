-- ===== src/State/Ports.antt =====
-- The ports column (state/state.go: json.Marshal and json.Unmarshal of a []int).
pub mod RoundTrip
pub mod Range
use firecracker_lab.Prelude.{
  Text, ℕ, zero, suc, ℤ, pos, negsuc, ◌+◌, ◌-◌, ◌*◌, ◌^◌, Bool, true, false, ◌&&◌, ◌||◌, Option,
  none, some, List, [], ◌∷◌, ◌++◌, ltb, leb, ◌==◌, nat_eq, if◌then◌else◌,
}
use firecracker_lab.Prelude.Decimal.{format_int}

-- The elements behind the first one, each behind a comma.
marshal_rest : List ℤ → Text
marshal_rest [] = b']' ∷ []
marshal_rest (p ∷ ps) = b',' ∷ (format_int p ++ marshal_rest ps)

unfoldable pub marshal_ports : List ℤ → Text
unfolding marshal_rest format_int
marshal_ports [] = b'[' ∷ b']' ∷ []
marshal_ports (p ∷ ps) = b'[' ∷ (format_int p ++ marshal_rest ps)

is_space : ℕ → Bool
is_space c = c == 0x20 || c == 0x09 || c == 0x0a || c == 0x0d

is_digit : ℕ → Bool
is_digit c = leb b'0' c && leb c b'9'

-- An `int` has 64 bits.
abbrev pub max_int : ℕ
max_int = 2 ^ 63 - 1

unfoldable pub to_int : Bool → ℕ → Option ℤ
to_int false n = if leb n max_int then some (pos n) else none
to_int true zero = some (pos 0)
to_int true (suc n) = if leb n max_int then some (negsuc n) else none

-- Where the scanner stands in the array.
pub data Mode : Type 0 where
  -- before `[`
  start : Mode
  -- behind `[`
  opened : Mode
  -- behind a comma
  wanted : Mode
  -- behind a minus sign
  signed : Mode
  -- in a number: its sign and its value so far
  number : Bool → ℕ → Mode
  -- behind a number and a space
  after : Mode
  -- behind `]`
  closed : Mode

-- The first digit of a number; a leading zero stands alone, which `number` checks.
first_digit : Bool → ℕ → Option Mode
unfolding is_digit
first_digit negative c = if is_digit c then some (number negative (c - b'0')) else none

-- What one byte does: the next mode, and the element that it ends.
ended : Bool → ℕ → Mode → Option (Mode × List ℤ)
ended negative n next = elim (to_int negative n) [ none ↦ none | some z ↦ some (next, z ∷ []) ]

quiet : Mode → Option (Mode × List ℤ)
quiet m = some (m, [])

first : Bool → ℕ → Option (Mode × List ℤ)
unfolding first_digit
first negative c = elim (first_digit negative c) [ none ↦ none | some m ↦ some (m, []) ]

scan_byte : Mode → ℕ → Option (Mode × List ℤ)
unfolding first quiet ended to_int is_space is_digit
scan_byte start c = if is_space c then quiet start else if c == b'[' then quiet opened else none
scan_byte opened c =
    if is_space c
    then quiet opened
    else if c == b']'
    then quiet closed
    else if c == b'-'
    then quiet signed
    else first false c
scan_byte wanted c =
    if is_space c then quiet wanted else if c == b'-' then quiet signed else first false c
scan_byte signed c = first true c
scan_byte (number negative n) c =
    if is_digit c && ltb 0 n
    then quiet (number negative (n * 10 + (c - b'0')))
    else if c == b','
    then ended negative n wanted
    else if c == b']'
    then ended negative n closed
    else if is_space c
    then ended negative n after
    else none
scan_byte after c =
    if is_space c
    then quiet after
    else if c == b','
    then quiet wanted
    else if c == b']'
    then quiet closed
    else none
scan_byte closed c = if is_space c then quiet closed else none

prepend : List ℤ → Option (List ℤ) → Option (List ℤ)
prepend zs none = none
prepend zs (some more) = some (zs ++ more)

scan_ports : Mode → Text → Option (List ℤ)
unfolding scan_byte prepend
scan_ports closed [] = some []
scan_ports _ [] = none
scan_ports m (c ∷ s) = elim (scan_byte m c) [
  | none ↦ none
  | some (m', zs) ↦ prepend zs (scan_ports m' s)
]

-- `none` is an error. Arrays of integers are read, with white space where JSON has it. The text
-- `null` and elements of other kinds, which the program never writes, are refused.
unfoldable pub unmarshal_ports : Text → Option (List ℤ)
unfolding scan_ports
unmarshal_ports s = scan_ports start s
