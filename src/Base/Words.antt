-- ===== src/Base/Words.antt =====
-- Words as native numbers: the arithmetic of `u64`, `usize` and `u32`, which wraps, and its checked
-- variants.
use Prim.Native.Nat.{ℕ, ◌+◌, ◌-◌, ◌*◌, ◌/◌, ◌%◌, ◌≤◌, ◌<◌}
use mathlib.Core.Path.{◌≡◌, sym, ap, ◌∙◌}
use mathlib.Core.Bool.{false}
use mathlib.Core.Logic.{inl, inr}
use mathlib.Core.Option.{Option, none, some}
use native.Mathlib.Omega.{arith}
use native.Mathlib.Nat.{mod-add-mod, mod_self, mod-lt, div-add-mod}
use maram_os.Base.Tests.{ltb, ◌==◌, if◌then◌else◌, Bool-cases}

abbrev pub u64_mod : ℕ
u64_mod = 0x1_0000_0000_0000_0000

-- `a + b`, `a - b` and `a * b`.
abbrev pub add64 : ℕ → ℕ → ℕ
add64 a b = (a + b) % u64_mod

abbrev pub sub64 : ℕ → ℕ → ℕ
sub64 a b = (a + u64_mod - b) % u64_mod

abbrev pub u32_mod : ℕ
u32_mod = 0x1_0000_0000

-- `a + b` of `u32`.
abbrev pub add32 : ℕ → ℕ → ℕ
add32 a b = (a + b) % u32_mod

-- `a.checked_add(b)` and `a.checked_sub(b)`.
abbrev pub checked_add : ℕ → ℕ → Option ℕ
checked_add a b = if ltb (a + b) u64_mod then some (a + b) else none

abbrev pub checked_sub : ℕ → ℕ → Option ℕ
checked_sub a b = if ltb a b then none else some (a - b)

-- `a.div_ceil(b)` for `0 < b`.
abbrev pub div_ceil : ℕ → ℕ → ℕ
div_ceil a b = if a % b == 0 then a / b else a / b + 1

-- `a.next_multiple_of(b)` for `0 < b`, before the wrap.
abbrev pub next_multiple_of : ℕ → ℕ → ℕ
next_multiple_of a b = if a % b == 0 then a else a + (b - a % b)

pub le-next_multiple_of : (a b : ℕ) → 0 < b → a ≤ next_multiple_of a b
le-next_multiple_of a b h = ground arith

pub next_multiple_of-lt : (a b : ℕ) → 0 < b → next_multiple_of a b < a + b
next_multiple_of-lt a b h = ground arith

pub next_multiple_of-mod : (a b : ℕ) → 0 < b → next_multiple_of a b % b ≡ 0
next_multiple_of-mod a b h = elim (Bool-cases (a % b == 0)) [
  | inl e ↦ rw e (ground arith)
  | inr e ↦
      rw e (sym (mod-add-mod a b (b - a % b)) ∙ ap (λ t. t % b) (fill (mod-lt a h)) ∙ mod_self b)
]
  where
    fill : a % b < b → a % b + (b - a % b) ≡ b
    fill lt = omega arith

-- It is the least multiple that is not below `a`.
pub next_multiple_of-le : (a b k : ℕ) → 0 < b → a ≤ k * b → next_multiple_of a b ≤ k * b
next_multiple_of-le a b k h le = elim (Bool-cases (a % b == 0)) [
  | inl e ↦ rw e le
  | inr e ↦ rw e (
      let below : a / b < k = above e in
      let step : (a / b + 1) * b ≤ k * b = grind arith in grind (arith, div-add-mod a b))
]
  where
    above : (a % b == 0) ≡ false → a / b < k
    above e = grind (arith, div-add-mod a b)

pub le-div_ceil : (a b : ℕ) → 0 < b → a ≤ div_ceil a b * b
le-div_ceil a b h = elim (Bool-cases (a % b == 0)) [
  | inl e ↦ rw e (grind (arith, div-add-mod a b))
  | inr e ↦ rw e (grind (arith, div-add-mod a b, mod-lt a h))
]
