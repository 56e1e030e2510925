-- ===== src/Base.antt =====
-- The names that the modules share: the libraries', passed on, and those of four children.
-- `Tests` has the Boolean tests and the conditional, `Lists` the sequences indexed by native
-- numbers, `Int` the signed integers, `Word` the 32-bit operations.
mod Tests
mod Lists
pub mod Int
pub mod Word
pub mod Key
pub mod Map
pub mod Set
pub mod Bits
pub use Tests.*
pub use Lists.*
pub use Prim.Native.Nat.{ℕ, zero, suc, ◌+◌, ◌-◌, ◌*◌, ◌/◌, ◌%◌, ◌^◌, ◌≤◌, ◌<◌, min, max}
pub use Prim.Native.Nat.{bit_and, bit_or}
pub use mathlib.Core.Path.{◌≡◌, refl, sym, ap, ap₂, ◌∙◌}
pub use mathlib.Core.Logic.{◌≢◌, ◌↔◌, ◌⊎◌, inl, inr}
pub use mathlib.Core.Bool.{Bool, true, false, ◌&&◌, ◌||◌, not}
pub use mathlib.Core.Option.{Option, none, some}
pub use mathlib.Core.List.{List, [], ◌∷◌, ◌++◌, map}
pub use native.Mathlib.Omega.{arith}
