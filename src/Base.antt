-- ===== src/Base.antt =====
-- Shared by every module: the library names passed on, Boolean tests, equality as an instance,
-- lists over the native numbers, integers, floats, Python dictionaries and results with exceptions.
mod Tests
mod Equality
mod Lists
pub mod Int
pub mod Dict
pub mod Floats
mod Exceptions
pub mod Action
pub use Tests.*
unfoldable pub use Equality.*
pub use Lists.*
pub use Exceptions.*
pub use Prim.Native.Nat.{ℕ, zero, suc, ◌+◌, ◌-◌, ◌*◌, ◌/◌, ◌%◌, ◌^◌, ◌≤◌, ◌<◌, min, max}
pub use Prim.Native.String.{String, ◌++◌ as ◌<>◌}
pub use mathlib.Core.Path.{◌≡◌, refl, sym, ap, ◌∙◌}
pub use mathlib.Core.Logic.{◌≢◌, ◌↔◌, ◌⊎◌, inl, inr}
pub use mathlib.Core.Bool.{Bool, true, false, not, ◌&&◌, ◌||◌}
pub use mathlib.Core.Option.{Option, none, some}
pub use mathlib.Core.List.{List, [], ◌∷◌, ◌++◌, map}
pub use native.Mathlib.Omega.{arith}
