-- ===== src/Base.antt =====
-- The names that the other modules share: the libraries', passed on, tests on native numbers,
-- lists measured by native numbers, and 64-bit words.
mod Tests
mod Bits
mod Lists
mod Words
mod Xor
pub use Bits.*
pub use Tests.*
unfoldable pub use Tests.{update, all_below}
pub use Lists.*
pub use Words.*
pub use Xor.*
pub use Prim.Native.Nat.{ℕ, zero, suc, ◌+◌, ◌-◌, ◌*◌, ◌/◌, ◌%◌, ◌^◌, ◌≤◌, ◌<◌, min, max}
pub use mathlib.Core.Path.{◌≡◌, refl, sym, ap, ◌∙◌, subst}
pub use mathlib.Core.Logic.{◌≢◌, ◌↔◌, ◌⊎◌, inl, inr}
pub use mathlib.Core.Bool.{Bool, true, false, ◌&&◌, ◌||◌, not}
pub use mathlib.Core.Option.{Option, none, some}
pub use mathlib.Core.List.{List, [], ◌∷◌, ◌++◌, map, append_assoc, append-nil}
pub use native.Mathlib.Omega.{arith}
