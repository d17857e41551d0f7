-- ===== src/Allocators/AllocRange/Alloc.antt =====
-- `alloc_range` of kernel/src/allocators/buddy.rs with a slab.
use native.Mathlib.Nat.{pow-le-pow_right, pow-suc, one-le-pow}
use maram_os.Base.{
  ℕ, suc, ◌^◌, ◌%◌, ◌≤◌, ◌<◌, ◌≡◌, refl, true, false, not, ◌&&◌, Bool, List, Option, none, some,
  arith, ap, inl, inr, Bool-cases, u64_mod,
}
use maram_os.Allocators.Buddy.{Cell, Buddy, alloc}
use maram_os.Allocators.Buddy.Alloc.{Allocated, alloc-Allocated, alloc-none}
use maram_os.Allocators.Slab.{PageSlab, add_block}
use maram_os.Allocators.Slab.Ranges.{Range}
use maram_os.Allocators.Slab.Valid.{Used}
use maram_os.Allocators.Slab.Add.{Added, add_block-Added}
use maram_os.Allocators.AllocRange.{
  BuddyAllocator, order_of, is_power_of_two, slab_allocate, serve_added, serve_block, alloc_new,
  from_buddy, alloc_range,
}
use maram_os.Allocators.AllocRange.Valid.{Valid, IsFree}
use maram_os.Allocators.AllocRange.Serve.{HandedOut, Given, slab_allocate-Given}
use maram_os.Allocators.AllocRange.Grow.{
  size_le, taken-Valid, taken-Given, taken-IsFresh, grown-Valid, grown_shrinks,
}

module _ (min_order order_count max_blocks limit : ℕ) (small : limit < u64_mod) where
  abbrev V : BuddyAllocator → (ℕ → List ℕ) → (ℕ → List Range) → Type 0
  V = Valid min_order order_count max_blocks limit

  abbrev F : BuddyAllocator → (ℕ → List ℕ) → (ℕ → List Range) → ℕ → Type 0
  F = IsFree min_order order_count max_blocks limit

  abbrev G :
      BuddyAllocator
      → (ℕ → List ℕ)
      → (ℕ → List Range)
      → ℕ
      → Option (Option ℕ × BuddyAllocator)
      → Type 0
  G = Given min_order order_count max_blocks limit

  -- An allocation after a step that frees nothing.
  then-Given :
      {r r' : BuddyAllocator} {lists lists' : ℕ → List ℕ} {ranges ranges' : ℕ → List Range}
      {count : ℕ} {result : Option (Option ℕ × BuddyAllocator)}
      → ((y : ℕ) → F r' lists' ranges' y → F r lists ranges y)
      → G r' lists' ranges' count result
      → G r lists ranges count result
  then-Given {r} {r'} {lists} {lists'} {ranges} {ranges'} {count} less g = record {
    found = g.found;
    after = g.after;
    lists' = g.lists';
    ranges' = g.ranges';
    ends = g.ends;
    valid = g.valid;
    shrinks = λ y h. less y (g.shrinks y h);
    handed = weaken g.found g.handed;
  }
    where
      weaken :
          (found : Option ℕ)
          → HandedOut min_order order_count max_blocks limit r' g.after lists' g.lists' ranges'
              g.ranges' count found
          → HandedOut min_order order_count max_blocks limit r g.after lists g.lists' ranges
              g.ranges' count found
      weaken none h = tt
      weaken (some addr) h = record {
        ne_zero = h.ne_zero;
        below = h.below;
        was_free = λ y c. less y (h.was_free y c);
        not_free = h.not_free;
        held = h.held;
      }

  none-Given :
      {r : BuddyAllocator} {lists : ℕ → List ℕ} {ranges : ℕ → List Range} (size : ℕ)
      → V r lists ranges
      → G r lists ranges size (some (none, r))
  none-Given {r} {lists} {ranges} size v = record {
    found = none;
    after = r;
    lists' = lists;
    ranges' = ranges;
    ends = refl;
    valid = v;
    shrinks = λ y h. h;
    handed = tt;
  }

  module _ (few : order_count ≤ 32) (fuel count : ℕ) (enough : 2 ^ order_count ≤ fuel)
      (one : 1 ≤ count) (word : count < u64_mod) where
    fuel_lt :
        {r : BuddyAllocator} {lists : ℕ → List ℕ} {ranges : ℕ → List Range} (v : V r lists ranges)
        (i : ℕ)
        → Used r.slab i
        → (r.slab.blocks i).total_blocks < fuel
    fuel_lt v i u =
        let s = v.shape i u in
        let le =
          pow-le-pow_right {n = 2} (omega arith) {i = suc s.order} {j = order_count} s.order_lt in
        let pos = one-le-pow s.order 2 (omega arith) in
        omega (arith, le, s.total_eq, enough, pow-suc 2 s.order, pos)

    from_buddy-Given :
        {r : BuddyAllocator} {lists : ℕ → List ℕ} {ranges : ℕ → List Range}
        → V r lists ranges
        → (p : Option ℕ × Buddy) → alloc min_order order_count r.buddy (order_of count) ≡ p
        → G r lists ranges count (from_buddy min_order order_count max_blocks r p)
    from_buddy-Given v (some at, b') e =
        let (lists', k) =
          alloc-Allocated min_order order_count limit small v.buddy (order_of count) e in
        taken-Given min_order order_count max_blocks limit small v k count refl
          (size_le min_order count word)
    from_buddy-Given {r} v (none, b') e =
        let same : b' ≡ r.buddy =
          (alloc-none min_order order_count limit small v.buddy (order_of count) e (order_of count)
            (omega arith)).0 in
        rw same (none-Given count v)

    -- The block goes to the slab, which serves the range, or to the caller.
    serve_added-Given :
        {r : BuddyAllocator} {lists lists' : ℕ → List ℕ} {ranges : ℕ → List Range}
        (v : V r lists ranges) {at : ℕ} {b' : Buddy}
        (k : Allocated min_order order_count limit small at
          (order_of count)
          lists
          r.buddy
          b'
          lists')
        (o : Bool × PageSlab × (ℕ → Cell))
        → Added max_blocks
            (taken-Valid min_order order_count max_blocks limit small v k).slab
            (taken-IsFresh min_order order_count max_blocks limit small v k few)
            o
        → G r lists ranges count
            (serve_added min_order order_count max_blocks fuel (record r { buddy = b' }) count at o)
    unfolding serve_added
    serve_added-Given {r} v {at} {b'} k (true, slab', memory') added =
        let v' =
          grown-Valid min_order order_count max_blocks limit small v k few slab' memory' added in
        let g =
          slab_allocate-Given min_order order_count max_blocks limit v' count one fuel
            (fuel_lt v') in
        then-Given
          (grown_shrinks min_order order_count max_blocks limit small v k few slab' memory' added) g
    serve_added-Given {r} v {at} {b'} k (false, slab', memory') (e, e', _, _) =
        rw (e, e')
          (taken-Given min_order order_count max_blocks limit small v k count refl
            (size_le min_order count word))

    serve_block-Given :
        {r : BuddyAllocator} {lists : ℕ → List ℕ} {ranges : ℕ → List Range}
        → V r lists ranges
        → (p : Option ℕ × Buddy) → alloc min_order order_count r.buddy (order_of count) ≡ p
        → G r lists ranges count (serve_block min_order order_count max_blocks fuel r count p)
    unfolding serve_block
    serve_block-Given {r} v (some at, b') e =
        let (lists', k) =
          alloc-Allocated min_order order_count limit small v.buddy (order_of count) e in
        let short : order_of count % 32 ≡ order_of count = omega (arith, k.order_lt, few) in
        let v' = taken-Valid min_order order_count max_blocks limit small v k in
        let fresh = taken-IsFresh min_order order_count max_blocks limit small v k few in
        rw short (
          serve_added-Given v k (add_block max_blocks r.slab b'.memory at (2 ^ order_of count))
            (add_block-Added max_blocks v'.slab fresh v.fits))
    serve_block-Given {r} v (none, b') e =
        let same : b' ≡ r.buddy =
          (alloc-none min_order order_count limit small v.buddy (order_of count) e (order_of count)
            (omega arith)).0 in
        rw same (none-Given count v)

    module _ {r : BuddyAllocator} {lists : ℕ → List ℕ} {ranges : ℕ → List Range}
        (v : V r lists ranges) where
      alloc_new-Given :
          (o : Option (Option ℕ × BuddyAllocator))
          → G r lists ranges count o
          → G r lists ranges count (alloc_new min_order order_count max_blocks fuel count o)
      unfolding alloc_new
      alloc_new-Given none g = absurd (cc g.ends)
      alloc_new-Given (some (some addr, r')) g = g
      alloc_new-Given (some (none, r')) g =
          let same : r' ≡ g.after = ap second g.ends in
          let v' : V r' g.lists' g.ranges' = rw same g.valid in
          then-Given (λ y h. g.shrinks y (rw same at h))
            (serve_block-Given v' (alloc min_order order_count r'.buddy (order_of count)) refl)
        where
          second : Option (Option ℕ × BuddyAllocator) → BuddyAllocator
          second none = r
          second (some (_, r')) = r'

      -- In a valid state of at most 32 orders below 2^64, with fuel for the largest block and a
      -- number of blocks that is neither 0 nor beyond a word, `alloc_range` ends and keeps the state valid, in the buddy allocator and
      -- in the slab. Every byte of the range that it returns was free before and is not free now,
      -- and no other byte becomes free.
      pub alloc_range-Given :
          (has_slab : Bool)
          → G r lists ranges count
              (alloc_range min_order order_count max_blocks has_slab fuel r count)
      unfolding alloc_range
      alloc_range-Given has_slab = elim (Bool-cases (has_slab && not (is_power_of_two count))) [
        | inl e ↦ rw e (
            alloc_new-Given (slab_allocate min_order order_count max_blocks fuel r count) (
              slab_allocate-Given min_order order_count max_blocks limit v count one fuel
                (fuel_lt v)))
        | inr e ↦
            rw e (from_buddy-Given v (alloc min_order order_count r.buddy (order_of count)) refl)
      ]
