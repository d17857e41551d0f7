-- ===== src/Memory/Heap/Aligned.antt =====
-- The alignment of what kernel/src/memory/heap.rs hands out.
use native.Mathlib.Nat.{pow-suc, pow-le-pow_right, one-le-pow}
use maram_os.Base.{
  ℕ, zero, suc, ◌+◌, ◌-◌, ◌*◌, ◌/◌, ◌^◌, ◌≤◌, ◌<◌, ◌≡◌, refl, sym, ap, ◌∙◌, true, false, Option,
  some, none, List, arith, leb, ◌==◌, Bool-cases, inl, inr, max, div_ceil, le-div_ceil, u64_mod,
}
use maram_os.Allocators.Buddy.{Buddy, block_size}
use maram_os.Allocators.Buddy
use maram_os.Allocators.Buddy.Cover.{IsMultiple, block_size-blocks}
use maram_os.Allocators.Buddy.Alloc.{alloc-Allocated}
use maram_os.Allocators.Buddy.Valid.{Valid}
use maram_os.Allocators.AllocRange.{
  BuddyAllocator, order_from, order_of, is_power_of_two, from_buddy, alloc_range,
}
use maram_os.Allocators.AllocRange.Grow.{order_of-le}
use maram_os.Memory.Heap.{
  Layout, layout_to_size, unwrap_result, alloc, min_order, order_count, slab_blocks,
}

pow-lt : (a b : ℕ) → a < b → 2 ^ a < 2 ^ b
pow-lt a b h =
    let le = pow-le-pow_right {n = 2} (omega arith) {i = suc a} {j = b} h in
    let pos = one-le-pow a 2 (omega arith) in omega (arith, le, pos, pow-suc 2 a)

order_from-pow :
    (rounds from o : ℕ) → from ≤ o → o ≤ from + rounds → order_from rounds (2 ^ o) from ≡ o
unfolding order_from
order_from-pow zero from o lo hi = omega arith
order_from-pow (suc rounds) from o lo hi = elim (Bool-cases (from == o)) [
  | inl e ↦
      let same : from ≡ o = ground arith in
      let fits : leb (2 ^ o) (2 ^ o) ≡ true = ground arith in rw (same, fits) refl
  | inr e ↦
      let lt : from < o = ground arith in
      let below = pow-lt from o lt in
      let small : leb (2 ^ o) (2 ^ from) ≡ false = ground arith in
      rw small (order_from-pow rounds (from + 1) o (omega arith) (omega arith))
]

order_of-pow : (o : ℕ) → o ≤ 64 → order_of (2 ^ o) ≡ o
unfolding order_of
order_of-pow o h = order_from-pow 64 0 o (omega arith) (omega arith)

units_lt :
    (layout : Layout)
    → layout.size + layout.align < u64_mod
    → max (div_ceil (max layout.size 16) 16) (div_ceil layout.align 16) < u64_mod
units_lt layout h =
    let a = div_ceil-le (max layout.size 16) in
    let b = div_ceil-le layout.align in omega (arith, a, b)
  where
    div_ceil-le : (n : ℕ) → div_ceil n 16 ≤ n / 16 + 1
    div_ceil-le n = ground arith

-- The count of a layout holds its bytes.
pub layout_to_size-le :
    (layout : Layout)
    → layout.size + layout.align < u64_mod
    → layout.size ≤ layout_to_size layout * 16
unfolding layout_to_size
layout_to_size-le layout h =
    let units = le-div_ceil (max layout.size 16) 16 (omega arith) in
    elim (Bool-cases (div_ceil layout.align 16 == 1)) [
      | inl e ↦ rw e (omega arith)
      | inr e ↦
          let le =
            order_of-le (max (div_ceil (max layout.size 16) 16) (div_ceil layout.align 16))
              (units_lt layout h) in
          rw e (omega (arith, le, units))
    ]

order_from-end : (rounds count from : ℕ) → order_from rounds count from ≤ from + rounds
unfolding order_from
order_from-end zero count from = omega arith
order_from-end (suc rounds) count from = elim (Bool-cases (leb count (2 ^ from))) [
  | inl e ↦ rw e (omega arith)
  | inr e ↦ rw e (omega (arith, order_from-end rounds count (from + 1)))
]

order_of-end : (count : ℕ) → order_of count ≤ 64
unfolding order_of
order_of-end count = order_from-end 64 count 0

pow-le_inv : (a b : ℕ) → 2 ^ a ≤ 2 ^ b → a ≤ b
pow-le_inv a b h = elim (Bool-cases (leb a b)) [
  | inl e ↦ ground arith
  | inr e ↦ absurd (omega (arith, pow-lt b a (ground arith)))
]

module _ (layout : Layout) (i : ℕ) (some_bits : 1 ≤ i) (e : layout.align ≡ 2 ^ i * 16)
    (word : layout.size + layout.align < u64_mod) where
  -- The order of the block for an alignment of more than 16 bytes.
  abbrev order : ℕ
  order = order_of (max (div_ceil (max layout.size 16) 16) (div_ceil layout.align 16))

  align_units : div_ceil layout.align 16 ≡ 2 ^ i
  align_units = rw e (ground arith)

  order-le : i ≤ order
  order-le =
      let le =
        order_of-le (max (div_ceil (max layout.size 16) 16) (div_ceil layout.align 16))
          (units_lt layout word) in
      pow-le_inv i order (omega (arith, le, align_units))

  layout_to_size-pow : layout_to_size layout ≡ 2 ^ order
  unfolding layout_to_size
  layout_to_size-pow =
      let more = pow-lt 0 i some_bits in
      let ne : (div_ceil layout.align 16 == 1) ≡ false = ground (arith, align_units) in rw ne refl

  block-IsMultiple :
      (addr : ℕ) → IsMultiple addr (block_size min_order order) → IsMultiple addr layout.align
  block-IsMultiple addr (q, m) =
      let fill : order - i + i ≡ order = omega (arith, order-le) in
      let parts : 2 ^ (order - i) * 2 ^ i ≡ 2 ^ order =
        block_size-blocks i (order - i) ∙ ap (λ t. 2 ^ t) fill in
      let size : 2 ^ order * 2 ^ 4 ≡ block_size min_order order =
        block_size-blocks min_order order in
      (
        q * 2 ^ (order - i),
        m
            ∙ ap (λ t. q * t) (sym size ∙ ap (λ t. t * 16) (sym parts))
            ∙ regroup q (2 ^ (order - i)) (2 ^ i)
            ∙ ap (λ t. q * 2 ^ (order - i) * t) (sym e),
      )
    where
      regroup : (a b c : ℕ) → a * (b * c * 16) ≡ a * b * (c * 16)
      regroup a b c = grind arith

  module _ (limit fuel : ℕ) (small : limit < u64_mod) (r : BuddyAllocator) {lists : ℕ → List ℕ}
      (v : Valid min_order order_count limit r.buddy lists) where
    served :
        (p : Option ℕ × Buddy)
        → Buddy.alloc min_order order_count r.buddy order ≡ p
        → (addr : ℕ) × (r' : BuddyAllocator) × (unwrap_result
              (from_buddy min_order order_count slab_blocks r p)
            ≡ some (addr, r'))
          × IsMultiple addr layout.align
    served (none, b') q = (0, record r { buddy = b' }, refl, (0, omega arith))
    served (some at, b') q =
        let (lists', k) = alloc-Allocated min_order order_count limit small v order q in
        (at, record r { buddy = b' }, refl, block-IsMultiple at k.aligned)

    -- In a valid state, for an alignment that is a power of two above 16 and a layout whose size and
    -- alignment fit in a word, `alloc` ends, for every fuel, and the address that it returns, 0
    -- without memory, is a multiple of the alignment.
    pub alloc-IsMultiple :
        (addr : ℕ) × (r' : BuddyAllocator) × (alloc fuel r layout ≡ some (addr, r'))
        × IsMultiple addr layout.align
    unfolding alloc alloc_range
    alloc-IsMultiple =
        let same =
          order_of-pow order
            (order_of-end (max (div_ceil (max layout.size 16) 16) (div_ceil layout.align 16))) in
        let power : is_power_of_two (2 ^ order) ≡ true = rw same (ground arith) in
        rw (layout_to_size-pow, power, same)
          (served (Buddy.alloc min_order order_count r.buddy order) refl)
