-- ===== src/Cidr.antt =====
-- `net.ParseCIDR` of an IPv4 address with the length of its prefix, and the text of its network.
use firecracker_lab.Prelude.{
  Text, codes, ℕ, ◌+◌, ◌-◌, ◌*◌, ◌/◌, ◌%◌, ◌^◌, Bool, true, false, not, ◌&&◌, Option, none, some,
  List, [], ◌∷◌, ◌++◌, ◌==◌, nat_eq, leb, if◌then◌else◌, ◌≡◌, refl, ℕ_discrete,
}
use firecracker_lab.Prelude.Decimal.{digits, value}
use firecracker_lab.Strings.{split_on}

are_digits : Text → Bool
are_digits [] = true
are_digits (c ∷ s) = leb b'0' c && leb c b'9' && are_digits s

-- A field without leading zeros.
is_plain : Text → Bool
is_plain [] = false
is_plain (c ∷ []) = true
is_plain (c ∷ d ∷ s) = not (c == b'0')

at_most : ℕ → ℕ → Option ℕ
at_most bound n = if leb n bound then some n else none

octet : Text → Option ℕ
unfolding are_digits is_plain at_most
octet s = if are_digits s && is_plain s then at_most 255 (value 0 s) else none

four : Option ℕ → Option ℕ → Option ℕ → Option ℕ → Option ℕ
four (some a) (some b) (some c) (some d) = some (a * 2 ^ 24 + b * 2 ^ 16 + c * 2 ^ 8 + d)
four a b c d = none

address_of : List Text → Option ℕ
unfolding four octet
address_of (a ∷ b ∷ c ∷ d ∷ []) = four (octet a) (octet b) (octet c) (octet d)
address_of parts = none

prefix_of : Text → Option ℕ
unfolding are_digits at_most
prefix_of [] = none
prefix_of (c ∷ s) = if are_digits (c ∷ s) then at_most 32 (value 0 (c ∷ s)) else none

unfoldable pub dotted : ℕ → Text
dotted v =
    digits (v / 2 ^ 24)
    ++ (b'.' ∷ digits (v / 2 ^ 16 % 256)
        ++ (b'.' ∷ digits (v / 2 ^ 8 % 256) ++ (b'.' ∷ digits (v % 256))))

-- The address with the bits behind the prefix cleared.
unfoldable pub masked : ℕ → ℕ → ℕ
masked v n = v / 2 ^ (32 - n) * 2 ^ (32 - n)

network_of : Option ℕ → Option ℕ → Option Text
network_of (some v) (some n) = some (dotted (masked v n) ++ (b'/' ∷ digits n))
network_of v n = none

-- The text of the network, as `IPNet.String` prints it.
from_parts : List Text → Option Text
unfolding address_of prefix_of network_of
from_parts (address ∷ prefix ∷ []) =
    network_of (address_of (split_on b'.' address)) (prefix_of prefix)
from_parts parts = none

unfoldable pub parse_cidr : Text → Option Text
unfolding from_parts
parse_cidr s = from_parts (split_on b'/' s)

test_parse_cidr :
    (parse_cidr (codes "192.168.8.17/24") ≡ some (codes "192.168.8.0/24"))
    × (parse_cidr (codes "192.168.8.256/24") ≡ none)
    × (parse_cidr (codes "10.0.0.1") ≡ none)
unfolding parse_cidr split_on dotted masked digits ℕ_discrete
test_parse_cidr = (refl, refl, refl)
