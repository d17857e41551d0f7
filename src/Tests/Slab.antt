-- ===== src/Tests/Slab.antt =====
-- The theorems on kernel/src/allocators/slab.rs at one block of four times 16 bytes.
use maram_os.Base.{ℕ, ◌<◌, ◌≡◌, refl, true, Option, some, List, [], ◌∷◌, arith}
use maram_os.Allocators.Buddy.{Cell}
use maram_os.Allocators.Slab.{
  BlockInfo, PageSlab, Area, area, alloc_in_block, allocate, free, add_block,
}
use maram_os.Allocators.Slab.Ranges.{Range, first_fit}
use maram_os.Allocators.Slab.Walk.{Agrees, alloc_in_block-first_fit}
use maram_os.Allocators.Slab.Valid.{Used, Valid, ValidBlock, IsTaken, ValidBlock-Listed}
use maram_os.Allocators.Slab.Alloc.{Served, allocate-Served}
use maram_os.Allocators.Slab.Free.{Freed, free-Freed}
use maram_os.Allocators.Slab.Add.{IsFresh, Added, add_block-Added}

-- Three of the four blocks at 64 are allocated.
abbrev pub part : BlockInfo
part = record {
  phys_base = 64;
  total_blocks = 4;
  allocated_blocks = 3;
  free_list = 112;
  used = true;
}

abbrev pub part_memory : ℕ → Cell
part_memory _ = record { next = 0; count = 1 }

abbrev pub part_slab : PageSlab
part_slab = record { blocks = λ _. part; block_count = 1; block_size = 16 }

abbrev pub part_ranges : ℕ → List Range
part_ranges _ = (112, 1) ∷ []

pub part-ValidBlock : ValidBlock 16 part part_memory ((112, 1) ∷ [])
part-ValidBlock = record {
  base_pos = λ e. omega arith;
  end_lt = omega arith;
  small = omega arith;
  within = (omega arith, omega arith, omega arith, tt);
  single = λ y. ground arith;
  chain = (refl, (λ e. omega arith), refl, refl);
  account = refl;
}

pub part-Valid : Valid part_slab part_memory part_ranges
part-Valid = record {
  pos = omega arith;
  blocks = λ i u. part-ValidBlock;
  apart = λ i j y ui uj hi hj. omega (arith, ui.0, uj.0);
}

pub three-IsTaken : IsTaken part_slab part_ranges 0 64 3
three-IsTaken = record {
  used = (omega arith, refl);
  one = omega arith;
  base_le = omega arith;
  end_le = omega arith;
  counted = omega arith;
  apart = λ y. ground arith;
}

alloc_in_block-first_fit_example :
    (r : Option ℕ × Area) × (alloc_in_block 16 1 2 (area part_slab part_memory 0) ≡ some r)
    × Agrees 16
        (omega arith)
        1
        64
        64
        part-ValidBlock.end_lt
        (area part_slab part_memory 0)
        ((112, 1) ∷ [])
        (first_fit 16 1 ((112, 1) ∷ []))
        r
alloc_in_block-first_fit_example =
    alloc_in_block-first_fit 16 (omega arith) 1 64 64 part-ValidBlock.end_lt 2
      (area part_slab part_memory 0) ((112, 1) ∷ [])
      (ValidBlock-Listed (omega arith) 1 part-ValidBlock) (omega arith)

fuel_lt : (i : ℕ) → Used part_slab i → 4 < 5
fuel_lt i u = omega arith

allocate-Served_example :
    (r : Option ℕ × PageSlab × (ℕ → Cell)) × (allocate 5 part_slab part_memory 1 ≡ some r)
    × Served 1 (omega arith) part_slab part_memory part_ranges 0 r
allocate-Served_example =
    allocate-Served 1 (omega arith) part_slab part_memory part_ranges part-Valid 5 fuel_lt

free-Freed_example : Freed part-Valid three-IsTaken (free part_slab part_memory 64 3)
free-Freed_example = free-Freed part-Valid three-IsTaken

second-IsFresh : IsFresh part_slab 128 4
second-IsFresh = record {
  base_pos = λ e. omega arith;
  end_lt = omega arith;
  one = omega arith;
  small = omega arith;
  apart = λ j y u h. ground arith;
}

add_block-Added_example :
    Added 2 part-Valid second-IsFresh (add_block 2 part_slab part_memory 128 4)
add_block-Added_example = add_block-Added 2 part-Valid second-IsFresh (omega arith)
