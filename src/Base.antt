-- ===== src/Base.antt =====
-- The names that every other file shares: the libraries', passed on, and those of the children:
-- Boolean tests, lists, Python's `str` and `int`, exceptions with state, and SQL tables.
mod Tests
mod Int
mod Text
mod Effects
mod Sql
mod Keyed
mod Time
pub use Tests.*
unfoldable pub use Int.*
unfoldable pub use Text.*
unfoldable pub use Effects.*
unfoldable pub use Sql.*
pub use Keyed.*
pub use Time.*
pub use Prim.Native.Nat.{ℕ, zero, suc, ◌+◌, ◌-◌, ◌*◌, ◌/◌, ◌%◌, ◌≤◌, ◌<◌, min, max}
pub use Prim.Native.String.{String}
pub use mathlib.Core.Path.{◌≡◌, refl, sym, ap, ◌∙◌}
pub use mathlib.Core.Logic.{◌≢◌, ◌⊎◌, inl, inr}
pub use mathlib.Core.Bool.{Bool, true, false, not, ◌&&◌, ◌||◌}
pub use mathlib.Core.Option.{Option, none, some}
pub use mathlib.Core.List.{List, [], ◌∷◌, ◌++◌, map}
pub use native.Mathlib.Omega.{arith}
pub use text.Mathlib.Text.{◌==◌ as str_eq}
pub use text.Mathlib.TextEquality.{eq_iff}
pub use text.Mathlib.TextPositions.{eq_refl}
