-- ===== src/Allocators/Slab/Valid.antt =====
-- The invariant of kernel/src/allocators/slab.rs: the free list of every used block spells
-- disjoint ranges of that block, which are all that is not allocated, and the used blocks do not
-- overlap.
use maram_os.Base.{ℕ, ◌+◌, ◌*◌, ◌≤◌, ◌<◌, ◌≡◌, ◌≢◌, refl, true, List, arith, u64_mod, u32_mod}
use maram_os.Allocators.Buddy.{Cell, head}
use maram_os.Allocators.Buddy.Cover.{covers}
use maram_os.Allocators.Slab.{BlockInfo, PageSlab, Area, in_block}
use maram_os.Allocators.Slab.Ranges.{Range, cover, total, Within, Fits, cover-end}
use maram_os.Allocators.Slab.Chain.{Chain, frame}
use maram_os.Allocators.Slab.Cut.{Taken}
use maram_os.Allocators.Slab.Walk.{Listed}

abbrev pub Used : PageSlab → ℕ → Type 0
Used s i = (i < s.block_count) × ((s.blocks i).used ≡ true)

abbrev pub span : ℕ → BlockInfo → ℕ
span block_size b = b.total_blocks * block_size

-- A used block whose free ranges are `xs`.
pub record ValidBlock (block_size : ℕ) (b : BlockInfo) (memory : ℕ → Cell) (xs : List Range)
    : Type 0 where
  pub base_pos : b.phys_base ≢ 0
  pub end_lt : b.phys_base + span block_size b < u64_mod
  pub small : b.total_blocks < u32_mod
  pub within : Within block_size b.phys_base (span block_size b) xs
  pub single : (y : ℕ) → cover block_size y xs ≤ 1
  pub chain : Chain memory b.free_list xs
  pub account : b.allocated_blocks + total xs ≡ b.total_blocks

pub record Valid (s : PageSlab) (memory : ℕ → Cell) (lists : ℕ → List Range) : Type 0 where
  pub pos : 0 < s.block_size
  pub blocks : (i : ℕ) → Used s i → ValidBlock s.block_size (s.blocks i) memory (lists i)
  pub apart :
      (i j y : ℕ)
      → Used s i
      → Used s j
      → in_block s.block_size (s.blocks i) y ≡ true
      → in_block s.block_size (s.blocks j) y ≡ true
      → i ≡ j

-- A range of the used block `i` that is allocated: it lies in the block, and no part of it is free.
pub record IsTaken (s : PageSlab) (lists : ℕ → List Range) (i addr count : ℕ) : Type 0 where
  pub used : Used s i
  pub one : 1 ≤ count
  pub base_le : (s.blocks i).phys_base ≤ addr
  pub end_le : addr + count * s.block_size ≤ (s.blocks i).phys_base + span s.block_size (s.blocks i)
  pub counted : count ≤ (s.blocks i).allocated_blocks
  pub apart : (y : ℕ) → covers y addr (count * s.block_size) + cover s.block_size y (lists i) ≤ 1

module _ {block_size : ℕ} (pos : 0 < block_size) where
  pub ValidBlock-Listed :
      {b : BlockInfo} {memory : ℕ → Cell} {xs : List Range} (count : ℕ)
      (v : ValidBlock block_size b memory xs)
      → Listed block_size pos count b.phys_base
          (span block_size b)
          v.end_lt
          (record { info = b; memory = memory })
          head
          xs
  ValidBlock-Listed count v = record {
    within = v.within;
    single = v.single;
    outside = refl;
    chain = v.chain;
    account = omega (arith, v.account, v.small);
  }

  -- The free ranges lie in the block.
  pub cover-in_block :
      {b : BlockInfo} {memory : ℕ → Cell} {xs : List Range}
      → ValidBlock block_size b memory xs
      → (y : ℕ) → 1 ≤ cover block_size y xs
      → in_block block_size b y ≡ true
  cover-in_block {b} {memory} {xs} v y h =
      let (lo, hi) = cover-end block_size b.phys_base (span block_size b) y xs v.within h in
      ground arith

  -- A block survives every write outside of its free ranges.
  pub ValidBlock-frame :
      {b : BlockInfo} {memory memory' : ℕ → Cell} {xs : List Range}
      → ValidBlock block_size b memory xs
      → ((y : ℕ)
          → 1 ≤ cover block_size y xs
          → ((memory' y).next ≡ (memory y).next) × ((memory' y).count ≡ (memory y).count))
      → ValidBlock block_size b memory' xs
  ValidBlock-frame {b} {memory} {memory'} {xs} v same = record {
    base_pos = v.base_pos;
    end_lt = v.end_lt;
    small = v.small;
    within = v.within;
    single = v.single;
    chain =
        frame block_size pos memory memory' b.phys_base (span block_size b) b.free_list xs v.within
          v.chain same;
    account = v.account;
  }

  -- What an allocation in a block leaves.
  pub Taken-ValidBlock :
      {count : ℕ} {a a' : Area} {addr : ℕ} {xs xs' : List Range} {one : 1 ≤ count}
      → ValidBlock block_size a.info a.memory xs
      → Fits block_size count a.info.phys_base (span block_size a.info) one xs addr xs'
      → Taken block_size pos count a a' head xs xs'
      → ValidBlock block_size a'.info a'.memory xs'
  Taken-ValidBlock v f t =
      rw (t.info.base_eq, t.info.total_eq)
        (record {
          base_pos = v.base_pos;
          end_lt = v.end_lt;
          small = v.small;
          within = f.within;
          single = λ y. omega (arith, f.cover_eq y, v.single y);
          chain = t.chain;
          account = omega (arith, t.info.allocated_eq, f.total_eq, v.account);
        })
