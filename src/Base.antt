-- ===== src/Base.antt =====
-- The names that every component shares: the libraries', passed on, Boolean tests, lists that are
-- indexed by native numbers, C integers, single bits of a word, and finite maps as functions.
mod Tests
mod Lists
mod Ints
mod Bits
mod BitLaws
mod Maps
pub use Tests.*
pub use Lists.*
pub use Ints.*
pub use Bits.*
pub use BitLaws.*
pub use Maps.*
pub use Prim.Native.Nat.{ℕ, zero, suc, ◌+◌, ◌-◌, ◌*◌, ◌/◌, ◌%◌, ◌^◌, ◌≤◌, ◌<◌}
pub use mathlib.Core.Path.{◌≡◌, refl, sym, ap, ◌∙◌, subst, fun_ext}
pub use mathlib.Core.Logic.{◌≢◌, ◌↔◌, ◌⊎◌, inl, inr}
pub use mathlib.Core.Bool.{Bool, true, false, ◌&&◌, ◌||◌, not}
pub use mathlib.Core.Option.{Option, none, some}
pub use mathlib.Core.List.{List, [], ◌∷◌, ◌++◌, map}
pub use native.Mathlib.Omega.{arith}
unfoldable pub use native.Mathlib.Decide.{dec_lt, dec_le, ℕ_discrete}
