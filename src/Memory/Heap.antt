-- ===== src/Memory/Heap.antt =====
-- kernel/src/memory/heap.rs: the kernel heap, ranges of blocks of 16 bytes. The pages that it is
-- set up with are a parameter.
pub mod Aligned
use maram_os.Base.{
  ℕ, ◌+◌, ◌-◌, ◌*◌, ◌^◌, ◌≡◌, Bool, true, Option, some, none, ◌==◌, if◌then◌else◌, max, div_ceil,
}
use maram_os.Allocators.Buddy.{Buddy, push}
use maram_os.Allocators.AllocRange.{BuddyAllocator, order_of, alloc_range, free_range}

-- The const generics of `Buddy`.
abbrev pub min_order : ℕ
min_order = 4

abbrev pub order_count : ℕ
order_count = 17

abbrev pub slab_blocks : ℕ
slab_blocks = 64

abbrev pub heap_size : ℕ
heap_size = 1024 * 1024

-- `core::alloc::Layout`.
pub record Layout : Type 0 where
  pub size : ℕ
  pub align : ℕ

-- `init` behind `PhysPage::new`, for the address of the pages and their number.
unfoldable pub init_at : BuddyAllocator → ℕ → ℕ → BuddyAllocator
init_at r address count = record r { buddy = push r.buddy address (order_of (count * 4096) - 4) }

unfoldable pub layout_to_size : Layout → ℕ
layout_to_size layout =
    let align_units = div_ceil layout.align 16 in
    let units = div_ceil (max layout.size 16) 16 in
    if align_units == 1 then units else 2 ^ order_of (max units align_units)

-- `unwrap_or(0)`.
abbrev pub unwrap_or : Option ℕ × BuddyAllocator → ℕ × BuddyAllocator
unwrap_or (none, r) = (0, r)
unwrap_or (some addr, r) = (addr, r)

abbrev pub unwrap_result : Option (Option ℕ × BuddyAllocator) → Option (ℕ × BuddyAllocator)
unwrap_result none = none
unwrap_result (some result) = some (unwrap_or result)

-- `GlobalAlloc::alloc`.
unfoldable pub alloc : ℕ → BuddyAllocator → Layout → Option (ℕ × BuddyAllocator)
unfolding layout_to_size
alloc fuel r layout =
    unwrap_result
      (alloc_range min_order order_count slab_blocks true fuel r (layout_to_size layout))

-- `GlobalAlloc::dealloc`.
unfoldable pub dealloc : ℕ → BuddyAllocator → ℕ → Layout → Option BuddyAllocator
unfolding layout_to_size
dealloc fuel r addr layout =
    free_range min_order order_count slab_blocks true fuel r addr (layout_to_size layout)
