-- ===== src/Tests/Heap.antt =====
-- A run of the kernel heap of kernel/src/memory/heap.rs.
use maram_os.Base.{ℕ, [], ◌∷◌, update, ◌≡◌, refl, some, arith}
use maram_os.Allocators.Buddy.{push}
use maram_os.Allocators.Buddy.Cover.{cover, IsMultiple}
use maram_os.Allocators.Buddy.Valid.{Valid, push-Valid}
use maram_os.Allocators.Slab.{new}
use maram_os.Allocators.AllocRange.{BuddyAllocator}
use maram_os.Memory.Heap.{Layout, alloc, order_count}
use maram_os.Memory.Heap.Aligned.{alloc-IsMultiple}
use maram_os.Tests.Buddy.{empty, no_blocks}

-- 100 bytes at a multiple of 64.
abbrev layout : Layout
layout = record { size = 100; align = 64 }

empty_heap-Valid : Valid 4 order_count 1048576 empty no_blocks
unfolding cover
empty_heap-Valid = record {
  chain = λ o. refl;
  apart = λ o o' x h h'. cc;
  above = λ o h. refl;
  aligned = λ o x h. absurd (cc);
  below = λ o x h. absurd (cc);
  disjoint = λ x. omega arith;
}

-- A heap of one free block of 256 bytes, which is split.
abbrev heap : BuddyAllocator
heap = record { buddy = push empty 256 4; slab = new 16 }

heap-Valid : Valid 4 order_count 1048576 (push empty 256 4) (update no_blocks 4 (256 ∷ []))
unfolding cover
heap-Valid = push-Valid 4 order_count 1048576 empty_heap-Valid (record {
  order_lt = omega arith;
  ne_zero = λ e. omega arith;
  aligned = (1, refl);
  below = omega arith;
  disjoint = λ x. ground arith;
})

alloc-IsMultiple_example :
    (addr : ℕ) × (r' : BuddyAllocator) × (alloc 2 heap layout ≡ some (addr, r'))
    × IsMultiple addr 64
alloc-IsMultiple_example =
    alloc-IsMultiple layout 2 (omega arith) refl (omega arith) 1048576 2 (omega arith) heap
      heap-Valid
