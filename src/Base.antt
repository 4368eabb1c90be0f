-- ===== src/Base.antt =====
-- The names that the other modules share: library names passed on, tests, lists, integers,
-- equality by instances and dictionaries.
mod Tests
mod Int
mod EqClass
mod Lists
pub mod Calendar
pub mod Dict
pub mod Table
pub mod Rows
pub mod Txn
pub use Tests.*
pub use Int.*
pub use EqClass.*
pub use Lists.*
pub use Prim.Native.Nat.{ℕ, zero, suc, ◌+◌, ◌-◌, ◌*◌, ◌/◌, ◌%◌, ◌^◌, ◌≤◌, ◌<◌, min, max}
pub use Prim.Native.String.{String}
pub use mathlib.Core.Path.{◌≡◌, refl, sym, ap, ◌∙◌}
pub use mathlib.Core.Logic.{◌≢◌, ◌↔◌, ◌⊎◌, inl, inr}
pub use mathlib.Core.Bool.{Bool, true, false, not, ◌&&◌, ◌||◌}
pub use mathlib.Core.Option.{Option, none, some}
pub use mathlib.Core.List.{List, [], ◌∷◌, ◌++◌, map}
pub use native.Mathlib.Omega.{arith}
