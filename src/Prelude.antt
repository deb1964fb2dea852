-- ===== src/Prelude.antt =====
-- Library names passed on, and the helpers that all parts share.
mod Branch
pub mod Decimal
pub mod Lists
pub use Branch.{if◌then◌else◌, ltb, leb, Eq, ◌==◌, Bool-cases, Option-cases}
unfoldable pub use Branch.{nat_eq, text_eq, int_eq, text_dec, int_dec}
pub use Branch.{ℤ, pos, negsuc}
pub use Branch.{Text, codes}
pub use Prim.Native.Nat.{ℕ, zero, suc, ◌+◌, ◌-◌, ◌*◌, ◌/◌, ◌%◌, ◌^◌, ◌≤◌, ◌<◌}
pub use mathlib.Core.Path.{◌≡◌, refl, sym, ap, ◌∙◌}
pub use mathlib.Core.Logic.{◌≢◌, ◌↔◌, ◌⊎◌, inl, inr}
pub use mathlib.Core.Bool.{Bool, true, false, not, ◌&&◌, ◌||◌}
pub use mathlib.Core.Option.{Option, none, some}
pub use mathlib.Core.List.{List, [], ◌∷◌, ◌++◌, map}
pub use native.Mathlib.Omega.{arith}
unfoldable pub use native.Mathlib.Decide.{ℕ_discrete}
