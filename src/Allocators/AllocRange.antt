-- ===== src/Allocators/AllocRange.antt =====
-- kernel/src/allocators/buddy.rs with a slab (`HAS_SLAB`): ranges of any number of blocks. A
-- number of blocks that is no power of two is served by the slab of slab.rs, which takes its blocks
-- from the buddy allocator; both live in the same memory.
pub mod Alloc
pub mod Free
pub mod GiveBack
pub mod Grow
pub mod Serve
pub mod Valid
use maram_os.Base.{
  ℕ, zero, suc, ◌+◌, ◌^◌, ◌%◌, ◌/◌, ◌≡◌, Bool, true, false, ◌&&◌, not, Option, some, none, leb,
  ◌==◌, if◌then◌else◌,
}
use maram_os.Allocators.Buddy.{Cell, Buddy, alloc}
use maram_os.Allocators.Buddy
use maram_os.Allocators.Slab
use maram_os.Allocators.Slab.{PageSlab, allocate, add_block, owns}

-- The exponent of `count.next_power_of_two()`, among the `rounds` from `order` on.
unfoldable pub order_from : ℕ → ℕ → ℕ → ℕ
order_from zero count order = order
order_from (suc rounds) count order =
    let rest = order_from rounds count (order + 1) in if leb count (2 ^ order) then order else rest

-- `count.next_power_of_two().trailing_zeros()`.
unfoldable pub order_of : ℕ → ℕ
unfolding order_from
order_of count = order_from 64 count 0

abbrev pub is_power_of_two : ℕ → Bool
is_power_of_two count = count == 2 ^ order_of count

-- `n.trailing_zeros()` of a `u32`, among the `rounds` bits from `order` on.
unfoldable pub zeros_from : ℕ → ℕ → ℕ → ℕ
zeros_from zero n order = order
zeros_from (suc rounds) n order =
    let rest = zeros_from rounds (n / 2) (order + 1) in if n % 2 == 1 then order else rest

unfoldable pub trailing_zeros : ℕ → ℕ
unfolding zeros_from
trailing_zeros n = zeros_from 32 n 0

-- `BuddyAllocator` with its slab.
pub record BuddyAllocator : Type 0 where
  pub buddy : Buddy
  pub slab : PageSlab

abbrev pub with_slab : BuddyAllocator → PageSlab → (ℕ → Cell) → BuddyAllocator
with_slab r slab memory = record { buddy = record r.buddy { memory = memory }; slab = slab }

module _ (min_order order_count max_blocks : ℕ) where
  -- `self.slab.allocate(count)`.
  unfoldable pub slab_allocate : ℕ → BuddyAllocator → ℕ → Option (Option ℕ × BuddyAllocator)
  slab_allocate fuel r count = elim (allocate fuel r.slab r.buddy.memory count) [
    | none ↦ none
    | some (found, slab, memory) ↦ some (found, with_slab r slab memory)
  ]

  -- `alloc_range` behind `add_block`.
  unfoldable pub serve_added :
      ℕ → BuddyAllocator → ℕ → ℕ → Bool × PageSlab × (ℕ → Cell) → Option (Option ℕ × BuddyAllocator)
  unfolding slab_allocate
  serve_added fuel r count block (true, slab, memory) =
      slab_allocate fuel (with_slab r slab memory) count
  serve_added fuel r count block (false, slab, memory) = some (some block, with_slab r slab memory)

  -- `alloc_range` behind `alloc`: the block goes to the slab, or to the caller if the slab is full.
  unfoldable pub serve_block :
      ℕ → BuddyAllocator → ℕ → Option ℕ × Buddy → Option (Option ℕ × BuddyAllocator)
  unfolding serve_added
  serve_block fuel r count (none, buddy) = some (none, record r { buddy = buddy })
  serve_block fuel r count (some block, buddy) =
      serve_added fuel (record r { buddy = buddy }) count block
        (add_block max_blocks r.slab buddy.memory block (2 ^ (order_of count % 32)))

  -- `alloc_range` where the slab has no range.
  unfoldable pub alloc_new :
      ℕ → ℕ → Option (Option ℕ × BuddyAllocator) → Option (Option ℕ × BuddyAllocator)
  unfolding serve_block
  alloc_new fuel count none = none
  alloc_new fuel count (some (some addr, r)) = some (some addr, r)
  alloc_new fuel count (some (none, r)) =
      serve_block fuel r count (alloc min_order order_count r.buddy (order_of count))

  abbrev pub from_buddy : BuddyAllocator → Option ℕ × Buddy → Option (Option ℕ × BuddyAllocator)
  from_buddy r (found, buddy) = some (found, record r { buddy = buddy })

  unfoldable pub alloc_range : Bool → ℕ → BuddyAllocator → ℕ → Option (Option ℕ × BuddyAllocator)
  unfolding alloc_new
  alloc_range has_slab fuel r count =
      if has_slab && not (is_power_of_two count)
      then alloc_new fuel count (slab_allocate fuel r count)
      else from_buddy r (alloc min_order order_count r.buddy (order_of count))

  abbrev pub with_buddy : BuddyAllocator → Option Buddy → Option BuddyAllocator
  with_buddy r none = none
  with_buddy r (some buddy) = some (record r { buddy = buddy })

  -- `free_range` behind `slab.free`: a block that the slab gives up goes back to the free lists.
  unfoldable pub give_back :
      ℕ → BuddyAllocator → Option (ℕ × ℕ) × PageSlab × (ℕ → Cell) → Option BuddyAllocator
  give_back fuel r (none, slab, memory) = some (with_slab r slab memory)
  give_back fuel r (some (base, total), slab, memory) =
      let r' = with_slab r slab memory in
      with_buddy r' (Buddy.free min_order order_count fuel r'.buddy base (trailing_zeros total))

  unfoldable pub free_range : Bool → ℕ → BuddyAllocator → ℕ → ℕ → Option BuddyAllocator
  unfolding give_back
  free_range has_slab fuel r addr count =
      if count == 0
      then some r
      else if has_slab && owns r.slab addr
      then give_back fuel r (Slab.free r.slab r.buddy.memory addr count)
      else with_buddy r (Buddy.free min_order order_count fuel r.buddy addr (order_of count))
