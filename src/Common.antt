-- ===== src/Common.antt =====
-- The names that the other modules share.
mod Tests
mod Errors
mod Lists
mod Strings
pub mod Exec
pub mod Int
pub mod Decimal
pub mod HostPort
pub mod Sorting
pub mod Keys
pub mod Mapping
pub mod Tables
pub use Tests.*
pub use Errors.{Result, ok, err, Result-cases}
pub use Lists.*
unfoldable pub use Strings.*
pub use Prim.Native.Nat.{ℕ, zero, suc, ◌+◌, ◌-◌, ◌*◌, ◌/◌, ◌%◌, ◌^◌, ◌≤◌, ◌<◌, min}
pub use mathlib.Core.Path.{◌≡◌, refl, sym, ap, ◌∙◌, subst}
pub use mathlib.Core.Logic.{◌≢◌, ◌↔◌, ◌⊎◌, inl, inr}
pub use mathlib.Core.Bool.{Bool, true, false, not, ◌&&◌, ◌||◌}
pub use mathlib.Core.Option.{Option, none, some}
pub use mathlib.Core.List.{List, [], ◌∷◌, ◌++◌, map}
pub use native.Mathlib.Omega.{arith}
