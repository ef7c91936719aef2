-- ===== src/Prelude.antt =====
-- The names that the modules share: the libraries', passed on, and those of the children, which
-- hold Boolean tests, lists over the native numbers, results of code that may raise, and
-- the values that records hold.
mod Tests
mod Lists
mod Results
mod Values
mod Strip
mod Dicts
pub use Tests.*
pub use Lists.*
pub use Results.*
pub use Values.*
pub use Dicts.*
unfoldable pub use Strip.*
pub use Prim.Native.Nat.{ℕ, zero, suc, ◌+◌, ◌-◌, ◌*◌, ◌/◌, ◌%◌, ◌^◌, ◌≤◌, ◌<◌, min, max}
pub use mathlib.Core.Path.{◌≡◌, refl, sym, ap, subst, ◌∙◌}
pub use mathlib.Core.Logic.{◌≢◌, ◌↔◌, ◌⊎◌, inl, inr}
pub use mathlib.Core.Bool.{Bool, true, false, not, ◌&&◌, ◌||◌}
pub use mathlib.Core.Option.{Option, none, some}
pub use mathlib.Core.List.{List, [], ◌∷◌, ◌++◌, map}
pub use native.Mathlib.Omega.{arith}
