-- ===== src/Prelude.antt =====
-- The names that the other modules share: the libraries', passed on, and those of the children,
-- which hold what Python's numbers, strings, sets and dictionaries need.
mod Tests
mod Keys
mod Lists
pub mod Int
pub mod Dict
pub mod Set
pub mod Text
pub use Tests.*
pub use Keys.*
pub use Lists.*
pub use Prim.Native.Nat.{ℕ, zero, suc, ◌+◌, ◌-◌, ◌*◌, ◌≤◌, ◌<◌}
pub use Prim.Native.String.{String}
pub use mathlib.Core.Path.{◌≡◌, refl, sym, ap, ◌∙◌, subst}
pub use mathlib.Core.Logic.{◌≢◌, ◌↔◌, ◌⊎◌, inl, inr}
pub use mathlib.Core.Bool.{Bool, true, false, not, ◌&&◌, ◌||◌}
pub use mathlib.Core.Option.{Option, none, some}
pub use mathlib.Core.List.{List, [], ◌∷◌, ◌++◌, map}
pub use native.Mathlib.Omega.{arith}
