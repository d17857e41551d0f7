-- ===== src/Allocators/AllocRange/GiveBack.antt =====
-- What `free_range` of kernel/src/allocators/buddy.rs does with a block of the buddy allocator, with a
-- range that the slab keeps, and with a block that the slab gives up.
use native.Mathlib.Nat.{pow-suc}
use maram_os.Base.{
  ℕ, zero, suc, ◌+◌, ◌*◌, ◌/◌, ◌^◌, ◌%◌, ◌≤◌, ◌<◌, ◌≡◌, ◌⊎◌, refl, true, false, List, ◌∷◌, length,
  Option, some, arith, ap, ◌∙◌, sym, inl, inr, Bool-cases, ◌==◌, subst, update, update_self,
  update_ne,
}
use maram_os.Allocators.Buddy.{Cell, Buddy, block_size}
use maram_os.Allocators.Buddy
use maram_os.Allocators.Buddy.Cover.{covers, block_size-blocks, block_size_pos}
use maram_os.Allocators.Buddy.Cover.{cover as cover_lists}
use maram_os.Allocators.Buddy.Valid.{IsBlock}
use maram_os.Allocators.Buddy.Free.{Freed as BuddyFreed, free_with-Freed}
use maram_os.Allocators.Slab.{BlockInfo, PageSlab, set_block, in_block, owns}
use maram_os.Allocators.Slab.Ranges.{Range, cover, total}
use maram_os.Allocators.Slab.Whole.{cover-whole}
use maram_os.Allocators.Slab.Valid.{Used, IsTaken, span, cover-in_block}
use maram_os.Allocators.Slab.Alloc.{Used-before, was_in_block}
use maram_os.Allocators.Slab.Find.{owns-inside}
use maram_os.Allocators.AllocRange.{
  BuddyAllocator, with_slab, order_of, zeros_from, trailing_zeros, free_range,
}
use maram_os.Allocators.AllocRange.Valid.{Valid, IsFree, SlabValid-frame}

zeros_from-pow : (rounds k order : ℕ) → k < rounds → zeros_from rounds (2 ^ k) order ≡ order + k
unfolding zeros_from
zeros_from-pow zero k order h = absurd (omega arith)
zeros_from-pow (suc rounds) zero order h = omega arith
zeros_from-pow (suc rounds) (suc k) order h =
    let even : (2 ^ suc k % 2 == 1) ≡ false = grind (arith, pow-suc 2 k) in
    let half : 2 ^ suc k / 2 ≡ 2 ^ k = grind (arith, pow-suc 2 k) in
    rw (even, half) (zeros_from-pow rounds k (order + 1) (omega arith) ∙ omega arith)

pub trailing_zeros-pow : (k : ℕ) → k < 32 → trailing_zeros (2 ^ k) ≡ k
unfolding trailing_zeros
trailing_zeros-pow k h = zeros_from-pow 32 k 0 h ∙ omega arith

module _ (min_order order_count max_blocks limit : ℕ) where
  abbrev V : BuddyAllocator → (ℕ → List ℕ) → (ℕ → List Range) → Type 0
  V = Valid min_order order_count max_blocks limit

  abbrev F : BuddyAllocator → (ℕ → List ℕ) → (ℕ → List Range) → ℕ → Type 0
  F = IsFree min_order order_count max_blocks limit

  -- What `free_range` promises: it ends, the invariant holds on, all that was free stays so, and
  -- exactly the `bytes` bytes at `addr` become free.
  pub record Released (r : BuddyAllocator) (lists : ℕ → List ℕ) (ranges : ℕ → List Range)
      (addr bytes : ℕ) (result : Option BuddyAllocator) : Type 0 where
    pub after : BuddyAllocator
    pub lists' : ℕ → List ℕ
    pub ranges' : ℕ → List Range
    pub ends : result ≡ some after
    pub valid : V after lists' ranges'
    pub keeps : (y : ℕ) → F r lists ranges y → F after lists' ranges' y
    pub frees : (y : ℕ) → covers y addr bytes ≡ 1 → F after lists' ranges' y
    pub only : (y : ℕ) → F after lists' ranges' y → F r lists ranges y ⊎ (covers y addr bytes ≡ 1)

  module _ {r : BuddyAllocator} {lists : ℕ → List ℕ} {ranges : ℕ → List Range}
      (v : V r lists ranges) {addr order : ℕ}
      (apart : (j y : ℕ)
        → Used r.slab j
        → in_block r.slab.block_size (r.slab.blocks j) y ≡ true
        → covers y addr (block_size min_order order) ≡ 0) where
    -- A block outside of the slab joins the free lists.
    joined-Valid :
        (b' : Buddy) (lists' : ℕ → List ℕ)
        → BuddyFreed min_order order_count limit addr order lists r.buddy b' lists'
        → V (record r { buddy = b' }) lists' ranges
    joined-Valid b' lists' k = record {
      buddy = k.valid;
      slab =
          SlabValid-frame min_order order_count max_blocks limit r.slab r.buddy.memory b'.memory
            ranges v.slab (λ j y u h. k.same_memory y (untouched j y u h));
      fits = v.fits;
      size_eq = v.size_eq;
      shape = v.shape;
      apart = untouched;
    }
      where
        untouched :
            (j y : ℕ)
            → Used r.slab j
            → in_block r.slab.block_size (r.slab.blocks j) y ≡ true
            → cover_lists min_order order_count y lists' ≡ 0
        untouched j y u h = omega (arith, k.cover_eq y, v.apart j y u h, apart j y u h)

  module _ (few : order_count ≤ 32) (fuel : ℕ) {r : BuddyAllocator} {lists : ℕ → List ℕ}
      {ranges : ℕ → List Range} (v : V r lists ranges)
      (enough : (o : ℕ) → length (lists o) < fuel) where
    pub free_block :
        (addr order : ℕ)
        → IsBlock min_order order_count limit lists addr order
        → (b' : Buddy) × (lists' : ℕ → List ℕ) × (Buddy.free min_order order_count fuel r.buddy addr
              order
            ≡ some b')
          × BuddyFreed min_order order_count limit addr order lists r.buddy b' lists'
    unfolding Buddy.free
    free_block addr order k =
        free_with-Freed min_order order_count limit v.buddy fuel addr order (λ _ _. true) k enough

    -- A block of the buddy allocator is given back.
    pub free_block-Released :
        (addr count : ℕ)
        → 1 ≤ count
        → IsBlock min_order order_count limit lists addr (order_of count)
        → ((j y : ℕ)
            → Used r.slab j
            → in_block r.slab.block_size (r.slab.blocks j) y ≡ true
            → covers y addr (block_size min_order (order_of count)) ≡ 0)
        → Released r lists ranges addr
            (block_size min_order (order_of count))
            (free_range min_order order_count max_blocks true fuel r addr count)
    unfolding free_range
    free_block-Released addr count one k apart =
        let (b', lists', e, f) = free_block addr (order_of count) k in
        let some_blocks : (count == 0) ≡ false = ground arith in
        rw (some_blocks, not_owned (Bool-cases (owns r.slab addr)), e)
          (record {
            after = record r { buddy = b' };
            lists' = lists';
            ranges' = ranges;
            ends = refl;
            valid = joined-Valid v apart b' lists' f;
            keeps = λ y h. kept y f h;
            frees = λ y c. inl (omega (arith, f.cover_eq y, c));
            only = λ y h. was y f h;
          })
      where
        was :
            (y : ℕ) {b' : Buddy} {lists' : ℕ → List ℕ}
            → BuddyFreed min_order order_count limit addr (order_of count) lists r.buddy b' lists'
            → F (record r { buddy = b' }) lists' ranges y
            → F r lists ranges y ⊎ (covers y addr (block_size min_order (order_of count)) ≡ 1)
        was y f (inr h) = inl (inr h)
        was y f (inl c) =
            elim (Bool-cases (covers y addr (block_size min_order (order_of count)) == 1)) [
              | inl e ↦ inr (ground arith)
              | inr e ↦ inl (inl (ground (arith, f.cover_eq y)))
            ]

        kept :
            (y : ℕ) {b' : Buddy} {lists' : ℕ → List ℕ}
            → BuddyFreed min_order order_count limit addr (order_of count) lists r.buddy b' lists'
            → F r lists ranges y
            → F (record r { buddy = b' }) lists' ranges y
        kept y f (inl c) = inl (omega (arith, f.cover_eq y))
        kept y f (inr h) = inr h

        not_owned :
            (owns r.slab addr ≡ true) ⊎ (owns r.slab addr ≡ false) → owns r.slab addr ≡ false
        not_owned (inr h) = h
        not_owned (inl h) =
            let (i, u, inside) = owns-inside r.slab v.slab addr h in
            let pos = block_size_pos min_order (order_of count) in
            absurd (ground (arith, apart i addr u inside))

    module _ {i addr count : ℕ} (k : IsTaken r.slab ranges i addr count) where
      abbrev pub xs : List Range
      xs = (addr, count) ∷ ranges i

      abbrev pub joined : ℕ → List Range
      joined = update ranges i xs

      abbrev pub s : PageSlab
      s = r.slab

      module _ (info : BlockInfo) (memory' : ℕ → Cell) where
        abbrev pub next : BuddyAllocator
        next = with_slab r (set_block s i info) memory'

        -- What is free of the block with the range is the range or was free before.
        range_or_before :
            (y : ℕ)
            → 1 ≤ cover s.block_size y xs
            → F r lists ranges y ⊎ (covers y addr (count * 2 ^ min_order) ≡ 1)
        range_or_before y c = elim (Bool-cases (covers y addr (count * s.block_size) == 1)) [
          | inl e ↦
              let once : covers y addr (count * s.block_size) ≡ 1 = ground arith in
              inr (subst (λ t. covers y addr (count * t) ≡ 1) v.size_eq once)
          | inr e ↦ inl (inr (i, k.used, ground arith))
        ]

        -- Of the other blocks nothing becomes free.
        elsewhere :
            (j y : ℕ)
            → (j == i) ≡ false
            → Used (set_block s i info) j
            → 1 ≤ cover s.block_size y (joined j)
            → F r lists ranges y
        elsewhere j y e uj c = inr (
          j,
          (uj.0, ap (λ (b : BlockInfo). b.used) (sym (update_ne s.blocks i j info e)) ∙ uj.1),
          rw (update_ne ranges i j xs e) at c,
        )

        Used-after : (j : ℕ) → (j == i) ≡ false → Used s j → Used (set_block s i info) j
        Used-after j e (lt, u) =
            (lt, ap (λ (b : BlockInfo). b.used) (update_ne s.blocks i j info e) ∙ u)

        now_used : info.used ≡ true → Used (set_block s i info) i
        now_used u = (k.used.0, ap (λ (b : BlockInfo). b.used) (update_self s.blocks i info) ∙ u)

        -- The block stays with the slab.
        pub stays :
            info.used ≡ true
            → V next lists joined
            → Released r lists ranges addr (count * 2 ^ min_order) (some next)
        stays u v' = record {
          after = next;
          lists' = lists;
          ranges' = joined;
          ends = refl;
          valid = v';
          keeps = keeps;
          frees = λ y c. inr (
            i,
            now_used u,
            subst (λ t. 1 ≤ cover s.block_size y t) (sym (update_self ranges i xs)) (covered y c),
          );
          only = only;
        }
          where
            only :
                (y : ℕ)
                → F next lists joined y
                → F r lists ranges y ⊎ (covers y addr (count * 2 ^ min_order) ≡ 1)
            only y (inl c) = inl (inl c)
            only y (inr (j, uj, c)) = elim (Bool-cases (j == i)) [
              | inr e ↦ inl (elsewhere j y e uj c)
              | inl e ↦
                  let same : j ≡ i = ground arith in range_or_before y (rw (same, update_self) at c)
            ]

            covered :
                (y : ℕ) → covers y addr (count * 2 ^ min_order) ≡ 1 → 1 ≤ cover s.block_size y xs
            covered y c = rw v.size_eq (omega arith)

            keeps : (y : ℕ) → F r lists ranges y → F next lists joined y
            keeps y (inl c) = inl c
            keeps y (inr (j, uj, c)) = elim (Bool-cases (j == i)) [
              | inl e ↦
                  let same : j ≡ i = ground arith in
                  let c' : 1 ≤ cover s.block_size y (ranges i) = rw same at c in
                  inr (i, now_used u, rw update_self (omega arith))
              | inr e ↦ inr (j, Used-after j e uj, rw (update_ne ranges i j xs e) c)
            ]

        abbrev pub base : ℕ
        base = (s.blocks i).phys_base

        abbrev pub order : ℕ
        order = (v.shape i k.used).order

        inside_block :
            (y : ℕ)
            → in_block s.block_size (s.blocks i) y ≡ true
            → covers y base (block_size min_order order) ≡ 1
        inside_block y h =
            let size = block_size-blocks min_order order in
            let total = (v.shape i k.used).total_eq in
            let h' : in_block (2 ^ min_order) (record (s.blocks i) { total_blocks = 2 ^ order }) y
                ≡ true =
              rw (← v.size_eq, ← total) h in
            ground arith

        apart_block :
            (y : ℕ)
            → covers y base (block_size min_order order) ≡ 1
            → in_block s.block_size (s.blocks i) y ≡ true
        apart_block y c =
            let size = block_size-blocks min_order order in
            rw (v.size_eq, (v.shape i k.used).total_eq) (ground arith)

        pub base-IsBlock : IsBlock min_order order_count limit lists base order
        base-IsBlock = record {
          order_lt = (v.shape i k.used).order_lt;
          ne_zero = (v.slab.blocks i k.used).base_pos;
          aligned = (v.shape i k.used).aligned;
          below = (v.shape i k.used).below;
          disjoint = λ y. elim (Bool-cases (covers y base (block_size min_order order) == 1)) [
            | inl e ↦
                let c : covers y base (block_size min_order order) ≡ 1 = ground arith in
                omega (arith, v.apart i y k.used (apart_block y c))
            | inr e ↦ ground (arith, v.buddy.disjoint y)
          ];
        }

        -- No block that stays with the slab overlaps the block that it gives up.
        others_apart :
            info.used ≡ false
            → info.phys_base ≡ (s.blocks i).phys_base
            → info.total_blocks ≡ (s.blocks i).total_blocks
            → (j y : ℕ) → Used (set_block s i info) j
            → in_block s.block_size ((set_block s i info).blocks j) y ≡ true
            → covers y base (block_size min_order order) ≡ 0
        others_apart unused e_base e_total j y u h = elim (Bool-cases (j == i)) [
          | inl e ↦
              let same : j ≡ i = ground arith in
              let used : info.used ≡ true = rw (same, update_self) at u.1 in
              absurd (cc (sym unused ∙ used))
          | inr e ↦
              let u' = Used-before s i info xs v.slab k.used e_base e_total j u in
              let h' = was_in_block s i info xs v.slab k.used e_base e_total j y h in
              elim (Bool-cases (covers y base (block_size min_order order) == 1)) [
                | inl c ↦
                    let once : covers y base (block_size min_order order) ≡ 1 = ground arith in
                    absurd (ground (arith, v.slab.apart j i y u' k.used h' (apart_block y once)))
                | inr c ↦ ground arith
              ]
        ]

        -- The bytes of the slab's block are free once the block is.
        given_up :
            (b' : Buddy) (lists' : ℕ → List ℕ)
            → BuddyFreed min_order order_count limit base order lists next.buddy b' lists'
            → (y : ℕ) → in_block s.block_size (s.blocks i) y ≡ true
            → F (record next { buddy = b' }) lists' joined y
        given_up b' lists' f y h = inl (omega (arith, f.cover_eq y, inside_block y h))

        pub leaves :
            info.used ≡ false
            → info.phys_base ≡ (s.blocks i).phys_base
            → info.total_blocks ≡ (s.blocks i).total_blocks
            → V next lists joined
            → (b' : Buddy) (lists' : ℕ → List ℕ)
            → BuddyFreed min_order order_count limit base order lists next.buddy b' lists'
            → count + total (ranges i) ≡ (s.blocks i).total_blocks
            → Released r lists ranges addr
                (count * 2 ^ min_order)
                (some (record next { buddy = b' }))
        leaves unused e_base e_total v' b' lists' f full = record {
          after = record next { buddy = b' };
          lists' = lists';
          ranges' = joined;
          ends = refl;
          valid = joined-Valid v' (others_apart unused e_base e_total) b' lists' f;
          keeps = keeps;
          frees = λ y c. given_up b' lists' f y (inside y c);
          only = only;
        }
          where
            -- The ranges, with the one that is given back, are all of the block.
            every_byte :
                (y : ℕ) → in_block s.block_size (s.blocks i) y ≡ true → 1 ≤ cover s.block_size y xs
            every_byte y h =
                cover-whole s.block_size base (span s.block_size (s.blocks i)) xs
                  (k.one, k.base_le, k.end_le, (v.slab.blocks i k.used).within) k.apart
                  (ap (λ n. n * s.block_size) full) y (ground arith) (ground arith)

            only :
                (y : ℕ)
                → F (record next { buddy = b' }) lists' joined y
                → F r lists ranges y ⊎ (covers y addr (count * 2 ^ min_order) ≡ 1)
            only y (inl c) = elim (Bool-cases (covers y base (block_size min_order order) == 1)) [
              | inl e ↦
                  let once : covers y base (block_size min_order order) ≡ 1 = ground arith in
                  range_or_before y (every_byte y (apart_block y once))
              | inr e ↦ inl (inl (ground (arith, f.cover_eq y)))
            ]
            only y (inr (j, uj, c)) = elim (Bool-cases (j == i)) [
              | inr e ↦ inl (elsewhere j y e uj c)
              | inl e ↦
                  let same : j ≡ i = ground arith in
                  let used : info.used ≡ true = rw (same, update_self) at uj.1 in
                  absurd (cc (sym unused ∙ used))
            ]

            inside :
                (y : ℕ)
                → covers y addr (count * 2 ^ min_order) ≡ 1
                → in_block s.block_size (s.blocks i) y ≡ true
            inside y c =
                let c' : covers y addr (count * s.block_size) ≡ 1 =
                  subst (λ t. covers y addr (count * t) ≡ 1) (sym v.size_eq) c in
                ground (arith, k.base_le, k.end_le)

            keeps : (y : ℕ) → F r lists ranges y → F (record next { buddy = b' }) lists' joined y
            keeps y (inl c) = inl (omega (arith, f.cover_eq y))
            keeps y (inr (j, uj, c)) = elim (Bool-cases (j == i)) [
              | inl e ↦
                  let same : j ≡ i = ground arith in
                  let c' : 1 ≤ cover s.block_size y (ranges i) = rw same at c in
                  given_up b' lists' f y (cover-in_block v.slab.pos (v.slab.blocks i k.used) y c')
              | inr e ↦ inr (j, Used-after j e uj, rw (update_ne ranges i j xs e) c)
            ]
