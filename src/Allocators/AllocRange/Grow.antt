-- ===== src/Allocators/AllocRange/Grow.antt =====
-- A block that kernel/src/allocators/buddy.rs takes off its free lists, for the caller or for the
-- slab.
use native.Mathlib.Nat.{pow-le-pow_right, one-le-pow}
use maram_os.Base.{
  ℕ, zero, suc, ◌+◌, ◌*◌, ◌^◌, ◌≤◌, ◌<◌, ◌≡◌, refl, true, false, List, [], ◌∷◌, Option, some, leb,
  arith, ap, ◌∙◌, inl, inr, Bool-cases, ◌==◌, update, update_self, update_ne, u64_mod, u32_mod,
}
use maram_os.Allocators.Buddy.{Cell, Buddy, block_size}
use maram_os.Allocators.Buddy.Cover.{covers, block_size-blocks, block_size_pos}
use maram_os.Allocators.Buddy.Cover.{cover as cover_lists}
use maram_os.Allocators.Buddy.Valid.{IsBlock}
use maram_os.Allocators.Buddy.Alloc.{Allocated}
use maram_os.Allocators.Slab.{PageSlab, in_block, new_block}
use maram_os.Allocators.Slab.Ranges.{Range, cover}
use maram_os.Allocators.Slab.Valid.{Used, cover-in_block}
use maram_os.Allocators.Slab.Add.{IsFresh, Added}
use maram_os.Allocators.AllocRange.{BuddyAllocator, with_slab, order_from, order_of}
use maram_os.Allocators.AllocRange.Valid.{
  Valid, IsFree, IsShaped, BuddyValid-frame, SlabValid-frame,
}
use maram_os.Allocators.AllocRange.Serve.{Handed, Given}

order_from-le :
    (rounds count order : ℕ)
    → count ≤ 2 ^ (order + rounds)
    → count ≤ 2 ^ order_from rounds count order
unfolding order_from
order_from-le zero count order h = let same : order + 0 ≡ order = omega arith in rw same at h
order_from-le (suc rounds) count order h = elim (Bool-cases (leb count (2 ^ order))) [
  | inl e ↦ rw e (ground arith)
  | inr e ↦
      let same : order + suc rounds ≡ order + 1 + rounds = omega arith in
      rw e (order_from-le rounds count (order + 1) (rw same at h))
]

pub below_u32 : (order : ℕ) → order < 32 → 2 ^ order < u32_mod
below_u32 order h =
    let le = pow-le-pow_right {n = 2} (omega arith) {i = order} {j = 31} (omega arith) in
    omega arith

-- A block of the order holds `count` blocks.
pub order_of-le : (count : ℕ) → count < u64_mod → count ≤ 2 ^ order_of count
unfolding order_of
order_of-le count h = order_from-le 64 count 0 (omega arith)

pub size_le :
    (min_order count : ℕ)
    → count < u64_mod
    → count * 2 ^ min_order ≤ block_size min_order (order_of count)
size_le min_order count word =
    let size = block_size-blocks min_order (order_of count) in
    let le = order_of-le count word in grind arith

module _ (min_order order_count max_blocks limit : ℕ) (small : limit < u64_mod) where
  abbrev V' : BuddyAllocator → (ℕ → List ℕ) → (ℕ → List Range) → Type 0
  V' = Valid min_order order_count max_blocks limit

  abbrev F' : BuddyAllocator → (ℕ → List ℕ) → (ℕ → List Range) → ℕ → Type 0
  F' = IsFree min_order order_count max_blocks limit

  abbrev Given' :
      BuddyAllocator
      → (ℕ → List ℕ)
      → (ℕ → List Range)
      → ℕ
      → Option (Option ℕ × BuddyAllocator)
      → Type 0
  Given' = Given min_order order_count max_blocks limit

  module _ {r : BuddyAllocator} {lists lists' : ℕ → List ℕ} {ranges : ℕ → List Range}
      (v : V' r lists ranges) {at order : ℕ} {b' : Buddy}
      (k : Allocated min_order order_count limit small at order lists r.buddy b' lists') where
    abbrev pub taken : BuddyAllocator
    taken = record r { buddy = b' }

    pub taken-Valid : V' taken lists' ranges
    taken-Valid = record {
      buddy = k.valid;
      slab =
          SlabValid-frame min_order order_count max_blocks limit r.slab r.buddy.memory b'.memory
            ranges v.slab (λ i y u h. k.same_memory y (v.apart i y u h));
      fits = v.fits;
      size_eq = v.size_eq;
      shape = v.shape;
      apart = λ i y u h. omega (arith, k.cover_eq y, v.apart i y u h);
    }

    taken_shrinks : (y : ℕ) → F' taken lists' ranges y → F' r lists ranges y
    taken_shrinks y (inl c) = inl (omega (arith, k.cover_eq y))
    taken_shrinks y (inr h) = inr h

    taken_gone :
        (y : ℕ) → covers y at (block_size min_order order) ≡ 1 → F' taken lists' ranges y → ⊥
    taken_gone y c (inl h) = omega (arith, k.cover_eq y, v.buddy.disjoint y)
    taken_gone y c (inr (i, u, h)) =
        omega
          (arith, k.cover_eq y, v.apart i y u (cover-in_block v.slab.pos (v.slab.blocks i u) y h))

    taken-IsBlock : IsBlock min_order order_count limit lists' at order
    taken-IsBlock = record {
      order_lt = k.order_lt;
      ne_zero = k.ne_zero;
      aligned = k.aligned;
      below = k.below;
      disjoint = λ y. omega (arith, k.cover_eq y, v.buddy.disjoint y);
    }

    taken-Handed :
        (count : ℕ)
        → order ≡ order_of count
        → count * 2 ^ min_order ≤ block_size min_order order
        → Handed min_order order_count max_blocks limit r taken lists lists' ranges ranges at count
    taken-Handed count e le = record {
      held =
          rw (← e) (inr (taken-IsBlock, λ i y u h. omega (arith, k.cover_eq y, v.apart i y u h)));
      ne_zero = k.ne_zero;
      below = omega (arith, k.below);
      was_free = λ y c.
          let whole : covers y at (block_size min_order order) ≡ 1 = ground arith in
          inl (omega (arith, k.cover_eq y));
      not_free = λ y c h.
          let whole : covers y at (block_size min_order order) ≡ 1 = ground arith in
          taken_gone y whole h;
    }

    pub taken-Given :
        (count : ℕ)
        → order ≡ order_of count
        → count * 2 ^ min_order ≤ block_size min_order order
        → Given' r lists ranges count (some (some at, taken))
    taken-Given count e le = record {
      found = some at;
      after = taken;
      lists' = lists';
      ranges' = ranges;
      ends = refl;
      valid = taken-Valid;
      shrinks = taken_shrinks;
      handed = taken-Handed count e le;
    }

    -- The block may go to the slab.
    pub taken-IsFresh : order_count ≤ 32 → IsFresh r.slab at (2 ^ order)
    taken-IsFresh h =
        let size = block_size-blocks min_order order in
        rw v.size_eq (record {
          base_pos = k.ne_zero;
          end_lt = omega (arith, size, k.below);
          one = one-le-pow order 2 (omega arith);
          small = below_u32 order (omega (arith, k.order_lt));
          apart = λ j y u inside. omega (
            arith,
            size,
            k.cover_eq y,
            v.apart j y u (rw (← v.size_eq) at inside),
            rw (← size) at (k.cover_eq y),
          );
        })

    module _ (few : order_count ≤ 32) (slab' : PageSlab) (memory' : ℕ → Cell)
        (added : Added max_blocks taken-Valid.slab (taken-IsFresh few) (true, slab', memory')) where
      abbrev idx : ℕ
      idx = added.0

      abbrev pub ranges' : ℕ → List Range
      ranges' = update ranges idx ((at, 2 ^ order) ∷ [])

      abbrev pub grown : BuddyAllocator
      grown = with_slab taken slab' memory'

      grown_in_block :
          (y : ℕ)
          → in_block slab'.block_size (slab'.blocks idx) y ≡ true
          → covers y at (block_size min_order order) ≡ 1
      grown_in_block y h =
          let h' : in_block (2 ^ min_order) (new_block max_blocks at (2 ^ order)) y ≡ true =
            rw (added.3, added.4, v.size_eq) at h in
          let size = block_size-blocks min_order order in ground arith

      covered_once :
          (y : ℕ)
          → covers y at (block_size min_order order) ≡ 1
          → cover_lists min_order order_count y lists' ≡ 0
      covered_once y c = omega (arith, k.cover_eq y, v.buddy.disjoint y)

      off_block : (y : ℕ) → 1 ≤ cover_lists min_order order_count y lists' → (y == at) ≡ false
      off_block y c = elim (Bool-cases (y == at)) [
        | inl e ↦
            let same : y ≡ at = ground arith in
            let pos = block_size_pos min_order order in
            let once : covers at at (block_size min_order order) ≡ 1 = ground arith in
            let c' : 1 ≤ cover_lists min_order order_count at lists' = rw same at c in
            absurd (omega (arith, covered_once at once))
        | inr e ↦ e
      ]

      grown_shape :
          (j : ℕ)
          → Used slab' j
          → IsShaped min_order order_count max_blocks limit
              (slab'.blocks j).phys_base
              (slab'.blocks j).total_blocks
      grown_shape j u = elim (Bool-cases (j == idx)) [
        | inl e ↦
            let same : j ≡ idx = ground arith in
            rw (same, added.3)
              (record {
                order = order;
                order_lt = k.order_lt;
                total_eq = refl;
                aligned = k.aligned;
                below = k.below;
              })
        | inr e ↦ let (u', q) = added.5 j e u in rw q (v.shape j u')
      ]

      grown_apart :
          (j y : ℕ)
          → Used slab' j
          → in_block slab'.block_size (slab'.blocks j) y ≡ true
          → cover_lists min_order order_count y lists' ≡ 0
      grown_apart j y u h = elim (Bool-cases (j == idx)) [
        | inl e ↦
            let same : j ≡ idx = ground arith in covered_once y (grown_in_block y (rw same at h))
        | inr e ↦ let (u', q) = added.5 j e u in taken-Valid.apart j y u' (rw (q, added.4) at h)
      ]

      pub grown-Valid : V' grown lists' ranges'
      grown-Valid = record {
        buddy =
            BuddyValid-frame min_order order_count max_blocks limit b' memory' lists' k.valid
              (λ y c.
                let e = added.6 y (off_block y c) in
                (ap (λ (c : Cell). c.next) e, ap (λ (c : Cell). c.count) e));
        slab = added.7;
        fits = added.2;
        size_eq = added.4 ∙ v.size_eq;
        shape = grown_shape;
        apart = grown_apart;
      }

      pub grown_shrinks : (y : ℕ) → F' grown lists' ranges' y → F' r lists ranges y
      grown_shrinks y (inl c) = taken_shrinks y (inl c)
      grown_shrinks y (inr (j, u, c)) = elim (Bool-cases (j == idx)) [
        | inl e ↦
            let same : j ≡ idx = ground arith in
            let u' : Used slab' idx = rw same at u in
            let c' : 1 ≤ cover slab'.block_size y ((at, 2 ^ order) ∷ []) =
              rw (same, update_self) at c in
            let once =
              grown_in_block y
                (cover-in_block added.7.pos (added.7.blocks idx u') y (rw update_self c')) in
            inl (omega (arith, k.cover_eq y))
        | inr e ↦
            let (u', q) = added.5 j e u in
            inr (j, u', rw (update_ne ranges idx j _ e, added.4) at c)
      ]
