-- ===== src/OciImage/Platforms.antt =====
-- Which texts parsePlatform accepts.
use mathlib.Core.Path.{subst}
use firecracker_lab.Prelude.{
  Text, ℕ, ◌≡◌, ◌≢◌, ◌↔◌, refl, ap, ◌∙◌, Option, none, some, [], ◌∷◌, ◌++◌, ◌==◌, nat_eq, inl, inr,
  arith, Bool-cases,
}
use firecracker_lab.Prelude.Lists.{All}
use firecracker_lab.FilePath.{slash}
use firecracker_lab.OciImage.{Platform, in_front, split_two, is_empty, platform_of, parse_platform}

-- What is cut off at the first slash.
abbrev IsCut : Text → Option (Text × Text) → Type 0
IsCut s none = Unit
IsCut s (some (a, b)) = (s ≡ a ++ slash ∷ b) × All (λ c. c ≢ slash) a

in_front-IsCut :
    (c : ℕ) (s : Text) (cut : Option (Text × Text))
    → c ≢ slash
    → IsCut s cut
    → IsCut (c ∷ s) (in_front c cut)
unfolding in_front
in_front-IsCut c s none ne h = tt
in_front-IsCut c s (some (a, b)) ne (e, all) = (ap (λ (t : Text). c ∷ t) e, (ne, all))

split_two-IsCut : (s : Text) → IsCut s (split_two s)
unfolding split_two
split_two-IsCut [] = tt
split_two-IsCut (c ∷ s) = elim (Bool-cases (c == slash)) [
  | inl at ↦ rw at (ap (λ (d : ℕ). d ∷ s) (ground (arith, at)), tt)
  | inr other ↦
      rw other
        (in_front-IsCut c s (split_two s) (λ e. ground (arith, other, e)) (split_two-IsCut s))
]

split_two-append : (a b : Text) → All (λ c. c ≢ slash) a → split_two (a ++ slash ∷ b) ≡ some (a, b)
unfolding split_two in_front
split_two-append [] b h = ground arith
split_two-append (c ∷ a) b (ne, h) = ground (arith, ne, split_two-append a b h)

-- The platform that a text names: it is not empty on either side of its first slash.
abbrev pub Names : Text → Platform → Type 0
Names s p =
    (s ≡ p.os ++ slash ∷ p.architecture)
    × All (λ c. c ≢ slash) p.os
    × (p.os ≢ [])
    × (p.architecture ≢ [])

platform_of-Names :
    (s : Text) (cut : Option (Text × Text)) (p : Platform)
    → IsCut s cut
    → platform_of cut ≡ some p
    → Names s p
unfolding platform_of is_empty
platform_of-Names s none p h e = absurd cc
platform_of-Names s (some ([], b)) p h e = absurd cc
platform_of-Names s (some (c ∷ a, [])) p h e = absurd cc
platform_of-Names s (some (c ∷ a, d ∷ b)) p (cut, all) e =
    subst (Names s) {x = record { os = c ∷ a; architecture = d ∷ b }} (ground (arith, e))
      (cut, all, λ h. absurd (ground (arith, h)), λ h. absurd (ground (arith, h)))

platform_of-some :
    (a b : Text)
    → a ≢ []
    → b ≢ []
    → platform_of (some (a, b)) ≡ some (record { os = a; architecture = b })
unfolding platform_of is_empty
platform_of-some [] b h k = absurd (h refl)
platform_of-some (c ∷ a) [] h k = absurd (k refl)
platform_of-some (c ∷ a) (d ∷ b) h k = refl

-- parsePlatform accepts exactly the texts with something on both sides of their first slash, and
-- returns the two sides.
pub parse_platform-Names : (s : Text) (p : Platform) → (parse_platform s ≡ some p) ↔ Names s p
unfolding parse_platform
parse_platform-Names s p = (
  platform_of-Names s (split_two s) p (split_two-IsCut s),
  λ (e, all, h, k).
      ap (λ t. platform_of (split_two t)) e
      ∙ ap platform_of (split_two-append p.os p.architecture all)
      ∙ platform_of-some p.os p.architecture h k,
)
