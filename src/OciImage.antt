-- ===== src/OciImage.antt =====
-- Package ociimage: parsePlatform (ociimage/ociimage.go). An error is `none`.
pub mod Platforms
pub mod Build
pub mod Inject
pub mod Ext4
pub mod Resources
use firecracker_lab.Prelude.{
  Text, ℕ, Bool, true, false, ◌||◌, Option, none, some, List, [], ◌∷◌, ◌==◌, nat_eq, if◌then◌else◌,
}
use firecracker_lab.FilePath.{slash}

pub record Platform : Type 0 where
  pub os : Text
  pub architecture : Text

in_front : ℕ → Option (Text × Text) → Option (Text × Text)
in_front c none = none
in_front c (some (a, b)) = some (c ∷ a, b)

-- `strings.SplitN(s, "/", 2)`, if it has two parts.
pub split_two : Text → Option (Text × Text)
unfolding in_front
split_two [] = none
split_two (c ∷ s) = let rest = split_two s in if c == slash then some ([], s) else in_front c rest

is_empty : Text → Bool
is_empty [] = true
is_empty (c ∷ s) = false

platform_of : Option (Text × Text) → Option Platform
unfolding is_empty
platform_of none = none
platform_of (some (a, b)) =
    if is_empty a || is_empty b then none else some (record { os = a; architecture = b })

unfoldable pub parse_platform : Text → Option Platform
unfolding split_two platform_of
parse_platform s = platform_of (split_two s)
