-- ===== src/Base.antt =====
-- What the modules share: the libraries' names passed on, Boolean tests on numbers, lists by index,
-- counted loops that may fault, and signed integers.
mod Compare
mod Lists
mod Loops
mod Cells
mod Slices
pub mod Int
pub mod Outcome
pub use Compare.*
pub use Lists.*
unfoldable pub use Loops.*
pub use Slices.*
unfoldable pub use Cells.*
pub use Prim.Native.Nat.{ℕ, zero, suc, ◌+◌, ◌-◌, ◌*◌, ◌/◌, ◌%◌, ◌^◌, ◌≤◌, ◌<◌}
pub use mathlib.Core.Path.{◌≡◌, refl, sym, ap, ◌∙◌, subst}
pub use mathlib.Core.Logic.{◌≢◌, ◌↔◌, ◌⊎◌, inl, inr}
pub use mathlib.Core.Bool.{Bool, true, false, not, ◌&&◌, ◌||◌}
pub use mathlib.Core.Option.{Option, none, some}
pub use mathlib.Core.List.{List, [], ◌∷◌, ◌++◌, map}
pub use native.Mathlib.Omega.{arith}
unfoldable pub use native.Mathlib.Decide.{dec_lt, dec_le, ℕ_discrete}
