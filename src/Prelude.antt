-- ===== src/Prelude.antt =====
-- Names that the other modules share: the libraries' ones, passed on, and those of the children:
-- Boolean tests, results with an error type, lists measured by native numbers, keyed maps.
mod Tests
mod Results
mod Lists
mod Int
mod Members
pub mod Map
pub mod Div
pub mod Text
pub mod Split
pub mod Sorting
pub mod Pigeonhole
pub use Tests.*
pub use Results.*
pub use Lists.*
pub use Int.*
pub use Members.*
pub use Prim.Native.Nat.{ℕ, zero, suc, ◌+◌, ◌-◌, ◌*◌, ◌/◌, ◌%◌, ◌^◌, ◌≤◌, ◌<◌, min, max}
pub use mathlib.Core.Path.{◌≡◌, refl, sym, ap, ◌∙◌, subst}
pub use mathlib.Core.Logic.{◌≢◌, ◌↔◌, ◌⊎◌, inl, inr}
pub use mathlib.Core.Bool.{Bool, true, false, not, ◌&&◌, ◌||◌}
pub use mathlib.Core.Option.{Option, none, some}
pub use mathlib.Core.List.{List, [], ◌∷◌, ◌++◌, map}
pub use native.Mathlib.Omega.{arith}
