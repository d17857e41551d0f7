-- ===== src/Allocators/AllocRange/Valid.antt =====
-- The invariant of the buddy allocator with its slab: the free lists of both live in one memory,
-- and no block of the slab overlaps the free blocks of the buddy allocator.
use maram_os.Base.{ℕ, ◌+◌, ◌^◌, ◌≤◌, ◌<◌, ◌≡◌, true, List, ap, ◌⊎◌}
use maram_os.Allocators.Buddy.{Cell, Buddy, block_size}
use maram_os.Allocators.Buddy.Chain.{has}
use maram_os.Allocators.Buddy.Chain.{frame as frame_list}
use maram_os.Allocators.Buddy.Cover.{IsMultiple, covers}
use maram_os.Allocators.Buddy.Cover.{cover as cover_lists, cover-has}
use maram_os.Allocators.Buddy.Valid.{Valid as BuddyValid, IsBlock, order-lt}
use maram_os.Allocators.Slab.{PageSlab, in_block}
use maram_os.Allocators.Slab.Ranges.{Range, cover}
use maram_os.Allocators.Slab.Valid.{
  Used, IsTaken, Valid as SlabValid, ValidBlock-frame, cover-in_block,
}
use maram_os.Allocators.AllocRange.{BuddyAllocator, order_of}

abbrev pub SameCells : (ℕ → Cell) → (ℕ → Cell) → ℕ → Type 0
SameCells memory memory' y =
    ((memory' y).next ≡ (memory y).next) × ((memory' y).count ≡ (memory y).count)

Cell-ext : (c d : Cell) → (c.next ≡ d.next) × (c.count ≡ d.count) → c ≡ d
Cell-ext c d (p, q) = λ i. record { next = p i; count = q i }

module _ (min_order order_count max_blocks limit : ℕ) where
  -- A block of the slab is a block of the buddy allocator.
  pub record IsShaped (base total : ℕ) : Type 0 where
    pub order : ℕ
    pub order_lt : order < order_count
    pub total_eq : total ≡ 2 ^ order
    pub aligned : IsMultiple base (block_size min_order order)
    pub below : base + block_size min_order order ≤ limit

  pub record Valid (r : BuddyAllocator) (lists : ℕ → List ℕ) (ranges : ℕ → List Range)
      : Type 0 where
    pub buddy : BuddyValid min_order order_count limit r.buddy lists
    pub slab : SlabValid r.slab r.buddy.memory ranges
    pub fits : r.slab.block_count ≤ max_blocks
    pub size_eq : r.slab.block_size ≡ 2 ^ min_order
    pub shape :
        (i : ℕ)
        → Used r.slab i
        → IsShaped (r.slab.blocks i).phys_base (r.slab.blocks i).total_blocks
    pub apart :
        (i y : ℕ)
        → Used r.slab i
        → in_block r.slab.block_size (r.slab.blocks i) y ≡ true
        → cover_lists min_order order_count y lists ≡ 0

  -- A byte is free if it lies in a free block or in a free range of the slab.
  abbrev pub IsFree : BuddyAllocator → (ℕ → List ℕ) → (ℕ → List Range) → ℕ → Type 0
  IsFree r lists ranges y =
      (1 ≤ cover_lists min_order order_count y lists)
      ⊎ ((i : ℕ) × Used r.slab i × (1 ≤ cover r.slab.block_size y (ranges i)))

  -- A range that is handed out: a range of a used block of the slab, or a block of the buddy
  -- allocator outside of every block of the slab.
  abbrev pub Held : BuddyAllocator → (ℕ → List ℕ) → (ℕ → List Range) → ℕ → ℕ → Type 0
  Held r lists ranges addr count =
      ((i : ℕ) × IsTaken r.slab ranges i addr count)
      ⊎ (IsBlock min_order order_count limit lists addr (order_of count)
          × ((i y : ℕ)
              → Used r.slab i
              → in_block r.slab.block_size (r.slab.blocks i) y ≡ true
              → covers y addr (block_size min_order (order_of count)) ≡ 0))

  -- The free lists survive every write outside of the free blocks.
  pub BuddyValid-frame :
      (b : Buddy) (memory' : ℕ → Cell) (lists : ℕ → List ℕ)
      → BuddyValid min_order order_count limit b lists
      → ((y : ℕ) → 1 ≤ cover_lists min_order order_count y lists → SameCells b.memory memory' y)
      → BuddyValid min_order order_count limit (record b { memory = memory' }) lists
  BuddyValid-frame b memory' lists v same = record {
    chain = λ o.
        frame_list b.memory memory' (b.heads o) (lists o) (v.chain o)
          (λ x h. Cell-ext (memory' x) (b.memory x) (same x (covered o x h)));
    apart = v.apart;
    above = v.above;
    aligned = v.aligned;
    below = v.below;
    disjoint = v.disjoint;
  }
    where
      covered : (o x : ℕ) → has x (lists o) ≡ true → 1 ≤ cover_lists min_order order_count x lists
      covered o x h =
          cover-has min_order order_count o x lists (order-lt min_order order_count limit v o x h) h

  -- The slab survives every write outside of its blocks.
  pub SlabValid-frame :
      (s : PageSlab) (memory memory' : ℕ → Cell) (ranges : ℕ → List Range)
      → SlabValid s memory ranges
      → ((i y : ℕ) → Used s i → in_block s.block_size (s.blocks i) y ≡ true → memory' y ≡ memory y)
      → SlabValid s memory' ranges
  SlabValid-frame s memory memory' ranges v same = record {
    pos = v.pos;
    blocks = λ i u. ValidBlock-frame v.pos (v.blocks i u) (λ y h.
        let e = same i y u (cover-in_block v.pos (v.blocks i u) y h) in
        (ap (λ (c : Cell). c.next) e, ap (λ (c : Cell). c.count) e));
    apart = v.apart;
  }
