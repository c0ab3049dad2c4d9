-- ===== src/Base.antt =====
-- What the other modules share: the libraries' names, passed on, and those of the children, on
-- Boolean tests, lists, tables of rows and text.
mod Tests
mod Lists
pub mod Table
mod Strings
mod Round
unfoldable pub use Tests.*
unfoldable pub use Lists.*
unfoldable pub use Table.*
unfoldable pub use Strings.*
unfoldable pub use Round.*
pub use Prim.Native.Nat.{ℕ, zero, suc, ◌+◌, ◌-◌, ◌*◌, ◌/◌, ◌%◌, ◌≤◌, ◌<◌, min, max}
pub use mathlib.Core.Path.{◌≡◌, refl, sym, ap, ◌∙◌}
pub use mathlib.Core.Logic.{◌≢◌, ◌↔◌, ◌⊎◌, inl, inr}
pub use mathlib.Core.Bool.{Bool, true, false, not, ◌&&◌, ◌||◌}
pub use mathlib.Core.Option.{Option, none, some}
pub use mathlib.Core.List.{List, [], ◌∷◌, ◌++◌, map}
pub use native.Mathlib.Omega.{arith}
