-- ===== src/Tests/AllocRange.antt =====
-- The theorems on `alloc_range` and `free_range` of kernel/src/allocators/buddy.rs at three orders
-- of 16, 32 and 64 bytes.
use maram_os.Base.{ℕ, inl, ◌≡◌, refl, true, Option, none, some, List, [], arith, update}
use maram_os.Allocators.Buddy.{alloc, find_order, push, pop, split_down}
use maram_os.Allocators.Slab.{new, allocate, add_block, alloc_in_block, cut}
use maram_os.Allocators.Slab.Ranges.{Range}
use maram_os.Allocators.AllocRange.{BuddyAllocator, alloc_range, free_range, order_of}
use maram_os.Allocators.AllocRange.Valid.{Valid}
use maram_os.Allocators.AllocRange.Serve.{Given}
use maram_os.Allocators.AllocRange.Alloc.{alloc_range-Given}
use maram_os.Allocators.AllocRange.GiveBack.{Released}
use maram_os.Allocators.AllocRange.Free.{free_range-Released}
use maram_os.Allocators.Buddy.Cover.{cover}
use maram_os.Tests.Slab.{part_memory, part_slab, part_ranges, part-Valid, three-IsTaken}
use maram_os.Tests.Buddy.{empty, no_blocks, one, one_block, one-Valid, short_lists}

abbrev no_ranges : ℕ → List Range
no_ranges _ = []

abbrev whole : BuddyAllocator
whole = record { buddy = one; slab = new 16 }

whole-Valid : Valid 4 3 2 256 whole one_block no_ranges
whole-Valid = record {
  buddy = one-Valid;
  slab = record {
    pos = omega arith;
    blocks = λ i u. absurd (omega (arith, u.0));
    apart = λ i j y ui uj hi hj. absurd (omega (arith, ui.0));
  };
  fits = omega arith;
  size_eq = refl;
  shape = λ i u. absurd (omega (arith, u.0));
  apart = λ i y u h. absurd (omega (arith, u.0));
}

-- Three blocks of the one block of four go to the caller, and the slab keeps the fourth.
abbrev found : Option (Option ℕ × BuddyAllocator) → Option (Option ℕ)
found none = none
found (some (addr, r)) = some addr

abbrev next_one : Option (Option ℕ × BuddyAllocator) → Option (Option ℕ)
next_one none = none
next_one (some (addr, r)) = found (alloc_range 4 3 2 true 8 r 3)

three_at : found (alloc_range 4 3 2 true 8 whole 3) ≡ some (some 64)
unfolding alloc_range order_of allocate alloc find_order push update pop add_block alloc_in_block
three_at = refl

none_left : next_one (alloc_range 4 3 2 true 8 whole 3) ≡ some none
unfolding alloc_range order_of allocate alloc find_order push update pop add_block alloc_in_block
    cut split_down
none_left = refl

-- Nothing is taken for no blocks: the same address comes again.
abbrev zero_twice : Option (Option ℕ × BuddyAllocator) → Option (Option ℕ)
zero_twice none = none
zero_twice (some (addr, r)) = found (alloc_range 4 3 2 true 8 r 0)

zero_at : found (alloc_range 4 3 2 true 8 whole 0) ≡ zero_twice (alloc_range 4 3 2 true 8 whole 0)
unfolding alloc_range order_of allocate alloc find_order push update pop add_block alloc_in_block
    cut split_down
zero_at = refl

alloc_range-Given_example :
    Given 4 3 2 256 whole one_block no_ranges 3 (alloc_range 4 3 2 true 8 whole 3)
alloc_range-Given_example =
    alloc_range-Given 4 3 2 256 (omega arith) (omega arith) 8 3 (omega arith) (omega arith)
      (omega arith) whole-Valid true

-- The slab has one block of four, of which three are handed out as one range.
abbrev lent : BuddyAllocator
lent = record { buddy = record empty { memory = part_memory }; slab = part_slab }

lent-Valid : Valid 4 3 2 256 lent no_blocks part_ranges
unfolding cover
lent-Valid = record {
  buddy = record {
    chain = λ o. refl;
    apart = λ o o' x h h'. cc;
    above = λ o h. refl;
    aligned = λ o x h. absurd (cc);
    below = λ o x h. absurd (cc);
    disjoint = λ x. omega arith;
  };
  slab = part-Valid;
  fits = omega arith;
  size_eq = refl;
  shape = λ i u. record {
    order = 2;
    order_lt = omega arith;
    total_eq = refl;
    aligned = (1, refl);
    below = omega arith;
  };
  apart = λ i y u h. omega arith;
}

free_range-Released_example :
    Released 4 3 2 256 lent no_blocks part_ranges 64 48 (free_range 4 3 2 true 2 lent 64 3)
free_range-Released_example =
    free_range-Released 4 3 2 256 (omega arith) 2 lent-Valid short_lists 64 3 (omega arith)
      (inl (0, three-IsTaken))
