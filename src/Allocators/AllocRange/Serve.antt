-- ===== src/Allocators/AllocRange/Serve.antt =====
-- `slab.allocate` and `slab.add_block` inside of kernel/src/allocators/buddy.rs.
use maram_os.Base.{
  ℕ, ◌+◌, ◌*◌, ◌^◌, ◌≤◌, ◌<◌, ◌≡◌, ◌≢◌, refl, List, Option, none, some, arith, sym, inl, inr,
  Bool-cases, ◌==◌, subst, update, update_self, update_ne,
}
use maram_os.Allocators.Buddy.{Cell, block_size}
use maram_os.Allocators.Buddy.Cover.{covers, block_size-blocks}
use maram_os.Allocators.Slab.{BlockInfo, PageSlab, Outcome, set_block, in_block}
use maram_os.Allocators.Slab.Ranges.{Range, cover, Fits}
use maram_os.Allocators.Slab.Valid.{Used, IsTaken, Valid as SlabValid, span, cover-in_block}
use maram_os.Allocators.Slab.Alloc.{SameOutside, Served, allocate-Served, Used-before, was_in_block}
use maram_os.Allocators.AllocRange.{BuddyAllocator, with_slab, slab_allocate}
use maram_os.Allocators.AllocRange.Valid.{Valid, IsFree, IsShaped, Held, BuddyValid-frame}

module _ (min_order order_count max_blocks limit : ℕ) where
  abbrev V : BuddyAllocator → (ℕ → List ℕ) → (ℕ → List Range) → Type 0
  V = Valid min_order order_count max_blocks limit

  abbrev F : BuddyAllocator → (ℕ → List ℕ) → (ℕ → List Range) → ℕ → Type 0
  F = IsFree min_order order_count max_blocks limit

  -- The bytes of `count` blocks.
  abbrev pub bytes : ℕ → ℕ
  bytes count = count * 2 ^ min_order

  -- What is promised of the `count` blocks at `addr` that are handed out: they were free, are no
  -- longer free, and may be given back.
  pub record Handed (r r' : BuddyAllocator) (lists lists' : ℕ → List ℕ)
      (ranges ranges' : ℕ → List Range) (addr count : ℕ) : Type 0 where
    pub ne_zero : addr ≢ 0
    pub below : addr + bytes count ≤ limit
    pub was_free : (y : ℕ) → covers y addr (bytes count) ≡ 1 → F r lists ranges y
    pub not_free : (y : ℕ) → covers y addr (bytes count) ≡ 1 → F r' lists' ranges' y → ⊥
    pub held : Held min_order order_count max_blocks limit r' lists' ranges' addr count

  abbrev pub HandedOut :
      BuddyAllocator
      → BuddyAllocator
      → (ℕ → List ℕ)
      → (ℕ → List ℕ)
      → (ℕ → List Range)
      → (ℕ → List Range)
      → ℕ
      → Option ℕ
      → Type 0
  HandedOut r r' lists lists' ranges ranges' count none = Unit
  HandedOut r r' lists lists' ranges ranges' count (some addr) =
      Handed r r' lists lists' ranges ranges' addr count

  module _ {r : BuddyAllocator} {lists : ℕ → List ℕ} {ranges : ℕ → List Range}
      (v : V r lists ranges) (i : ℕ) (info : BlockInfo) (xs : List Range) (memory' : ℕ → Cell)
      (u : Used r.slab i) (e_base : info.phys_base ≡ (r.slab.blocks i).phys_base)
      (e_total : info.total_blocks ≡ (r.slab.blocks i).total_blocks)
      (same : SameOutside r.slab i r.buddy.memory memory')
      (slab : SlabValid (set_block r.slab i info) memory' (update ranges i xs)) where
    abbrev s : PageSlab
    s = r.slab

    abbrev s' : PageSlab
    s' = set_block s i info

    shape :
        (j : ℕ)
        → Used s' j
        → IsShaped min_order order_count max_blocks limit
            (s'.blocks j).phys_base
            (s'.blocks j).total_blocks
    shape j u' = elim (Bool-cases (j == i)) [
      | inl e ↦ let q : j ≡ i = ground arith in rw (q, update_self, e_base, e_total) (v.shape i u)
      | inr e ↦
          rw (update_ne s.blocks i j info e)
            (v.shape j (Used-before s i info xs v.slab u e_base e_total j u'))
    ]

    -- The slab changed inside of a block.
    pub with_slab-Valid : V (with_slab r s' memory') lists (update ranges i xs)
    with_slab-Valid = record {
      buddy =
          BuddyValid-frame min_order order_count max_blocks limit r.buddy memory' lists v.buddy
            (λ y c. elim (Bool-cases (in_block s.block_size (s.blocks i) y)) [
              | inl h ↦ absurd (omega (arith, v.apart i y u h))
              | inr h ↦ same y h
            ]);
      slab = slab;
      fits = v.fits;
      size_eq = v.size_eq;
      shape = shape;
      apart = λ j y u' h.
          v.apart j y (Used-before s i info xs v.slab u e_base e_total j u')
            (was_in_block s i info xs v.slab u e_base e_total j y h);
    }

  -- What an allocation of `count` blocks promises: the invariant holds on, no byte becomes free, and
  -- the bytes that are handed out were free before and are not free now.
  pub record Given (r : BuddyAllocator) (lists : ℕ → List ℕ) (ranges : ℕ → List Range) (count : ℕ)
      (result : Option (Option ℕ × BuddyAllocator)) : Type 0 where
    pub found : Option ℕ
    pub after : BuddyAllocator
    pub lists' : ℕ → List ℕ
    pub ranges' : ℕ → List Range
    pub ends : result ≡ some (found, after)
    pub valid : V after lists' ranges'
    pub shrinks : (y : ℕ) → F after lists' ranges' y → F r lists ranges y
    pub handed : HandedOut r after lists lists' ranges ranges' count found

  module _ {r : BuddyAllocator} {lists : ℕ → List ℕ} {ranges : ℕ → List Range}
      (v : V r lists ranges) (count : ℕ) (one : 1 ≤ count) where
    span_eq :
        (i : ℕ) (u : Used r.slab i)
        → span r.slab.block_size (r.slab.blocks i) ≡ block_size min_order (v.shape i u).order
    span_eq i u =
        rw (v.size_eq, (v.shape i u).total_eq) (block_size-blocks min_order (v.shape i u).order)

    gone :
        (i addr : ℕ) (info : BlockInfo) (xs : List Range) (memory' : ℕ → Cell)
        → Used r.slab i
        → info.phys_base ≡ (r.slab.blocks i).phys_base
        → info.total_blocks ≡ (r.slab.blocks i).total_blocks
        → Fits r.slab.block_size count
            (r.slab.blocks i).phys_base
            (span r.slab.block_size (r.slab.blocks i))
            one
            (ranges i)
            addr
            xs
        → (y : ℕ) → covers y addr (count * r.slab.block_size) ≡ 1
        → F (with_slab r (set_block r.slab i info) memory') lists (update ranges i xs) y
        → ⊥
    gone i addr info xs memory' u e_base e_total f y c (inl b) =
        let h : 1 ≤ cover r.slab.block_size y (ranges i) = omega (arith, f.cover_eq y) in
        omega (arith, v.apart i y u (cover-in_block v.slab.pos (v.slab.blocks i u) y h))
    gone i addr info xs memory' u e_base e_total f y c (inr (j, uj, b)) =
        let h : 1 ≤ cover r.slab.block_size y (ranges i) = omega (arith, f.cover_eq y) in
        elim (Bool-cases (j == i)) [
          | inl e ↦
              let q : j ≡ i = ground arith in
              let b' : 1 ≤ cover r.slab.block_size y xs = rw (q, update_self) at b in
              omega (arith, f.cover_eq y, (v.slab.blocks i u).single y)
          | inr e ↦
              let wj = Used-before r.slab i info xs v.slab u e_base e_total j uj in
              let b' : 1 ≤ cover r.slab.block_size y (ranges j) =
                rw (update_ne ranges i j xs e) at b in
              ground (
                arith,
                v.slab.apart j i y wj u (cover-in_block v.slab.pos (v.slab.blocks j wj) y b')
                    (cover-in_block v.slab.pos (v.slab.blocks i u) y h),
              )
        ]

    resized :
        (y addr : ℕ)
        → covers y addr (bytes count) ≡ 1
        → covers y addr (count * r.slab.block_size) ≡ 1
    resized y addr c = subst (λ t. covers y addr (count * t) ≡ 1) (sym v.size_eq) c

    slab_Handed :
        (i addr : ℕ) (info : BlockInfo) (xs : List Range) (memory' : ℕ → Cell)
        → Used r.slab i
        → info.phys_base ≡ (r.slab.blocks i).phys_base
        → info.total_blocks ≡ (r.slab.blocks i).total_blocks
        → Fits r.slab.block_size count
            (r.slab.blocks i).phys_base
            (span r.slab.block_size (r.slab.blocks i))
            one
            (ranges i)
            addr
            xs
        → IsTaken (set_block r.slab i info) (update ranges i xs) i addr count
        → Handed r
            (with_slab r (set_block r.slab i info) memory')
            lists
            lists
            ranges
            (update ranges i xs)
            addr
            count
    slab_Handed i addr info xs memory' u e_base e_total f taken =
        let b = v.slab.blocks i u in
        let h = v.shape i u in
        record {
          ne_zero = nonzero b.base_pos;
          below = rw (← v.size_eq) (omega (arith, f.end_le, h.below, span_eq i u));
          was_free = λ y c. inr (i, u, omega (arith, f.cover_eq y, resized y addr c));
          not_free = λ y c. gone i addr info xs memory' u e_base e_total f y (resized y addr c);
          held = inl (i, taken);
        }
      where
        nonzero : (r.slab.blocks i).phys_base ≢ 0 → addr ≢ 0
        nonzero nz z = nz (omega (arith, f.base_le))

    slab_shrinks :
        (i addr : ℕ) (info : BlockInfo) (xs : List Range) (memory' : ℕ → Cell)
        → Used r.slab i
        → info.phys_base ≡ (r.slab.blocks i).phys_base
        → info.total_blocks ≡ (r.slab.blocks i).total_blocks
        → Fits r.slab.block_size count
            (r.slab.blocks i).phys_base
            (span r.slab.block_size (r.slab.blocks i))
            one
            (ranges i)
            addr
            xs
        → (y : ℕ) → F (with_slab r (set_block r.slab i info) memory') lists (update ranges i xs) y
        → F r lists ranges y
    slab_shrinks i addr info xs memory' u e_base e_total f y (inl c) = inl c
    slab_shrinks i addr info xs memory' u e_base e_total f y (inr (j, uj, c)) =
        elim (Bool-cases (j == i)) [
          | inl e ↦
              let q : j ≡ i = ground arith in
              let c' : 1 ≤ cover r.slab.block_size y xs = rw (q, update_self) at c in
              inr (i, u, omega (arith, f.cover_eq y, c'))
          | inr e ↦ inr (
            j,
            Used-before r.slab i info xs v.slab u e_base e_total j uj,
            rw (update_ne ranges i j xs e) at c,
          )
        ]

    -- `slab.allocate` in a valid state.
    pub slab_allocate-Given :
        (fuel : ℕ)
        → ((i : ℕ) → Used r.slab i → (r.slab.blocks i).total_blocks < fuel)
        → Given r lists ranges count (slab_allocate min_order order_count max_blocks fuel r count)
    unfolding slab_allocate
    slab_allocate-Given fuel f =
        let (o, e, k) = allocate-Served count one r.slab r.buddy.memory ranges v.slab fuel f in
        rw (e, slab_allocate) (outcome o k)
      where
        outcome :
            (o : Outcome (Option ℕ))
            → Served count one r.slab r.buddy.memory ranges 0 o
            → Given r lists ranges count (some (o.0, with_slab r o.1 o.2))
        outcome (none, s', memory') (e, e', _) =
            rw (e, e')
              (record {
                found = none;
                after = r;
                lists' = lists;
                ranges' = ranges;
                ends = refl;
                valid = v;
                shrinks = λ y h. h;
                handed = tt;
              })
        outcome (some addr, s', memory')
              (i, xs, info, u, e, e_base, e_total, same, f, taken, valid) =
            rw e (record {
              found = some addr;
              after = with_slab r (set_block r.slab i info) memory';
              lists' = lists;
              ranges' = update ranges i xs;
              ends = refl;
              valid = with_slab-Valid v i info xs memory' u e_base e_total same (rw e at valid);
              shrinks = slab_shrinks i addr info xs memory' u e_base e_total f;
              handed = slab_Handed i addr info xs memory' u e_base e_total f (rw e at taken);
            })
