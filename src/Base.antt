-- ===== src/Base.antt =====
-- Names that every part of the development shares: numbers, texts, lists, maps, errors.
mod Tests
mod Lists
mod Text
mod Errors
mod Int
pub mod HashMap
pub mod Exec
pub mod Sorting
pub mod Parse
pub use Tests.*
pub use Lists.*
unfoldable pub use Text.{format, decimal}
pub use Errors.*
pub use Int.{ℤ, pos, negsuc}
pub use Prim.Native.Nat.{ℕ, zero, suc, ◌+◌, ◌-◌, ◌*◌, ◌/◌, ◌%◌, ◌^◌, ◌≤◌, ◌<◌, min, max}
pub use Prim.Native.String.{String, len}
pub use mathlib.Core.Path.{◌≡◌, refl, sym, ap, ◌∙◌}
pub use mathlib.Core.Logic.{◌≢◌, ◌↔◌, ◌⊎◌, inl, inr}
pub use mathlib.Core.Bool.{Bool, true, false, not, ◌&&◌, ◌||◌}
pub use mathlib.Core.Option.{Option, none, some}
pub use mathlib.Core.List.{List, [], ◌∷◌, ◌++◌, map}
pub use native.Mathlib.Omega.{arith}
