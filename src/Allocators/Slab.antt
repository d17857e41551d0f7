-- ===== src/Allocators/Slab.antt =====
-- kernel/src/allocators/slab.rs: ranges of any number of blocks, carved from blocks of the buddy
-- allocator. The free ranges of a block form a list that lives in the free ranges themselves, so
-- the functions take the memory and return it. Memory is indexed by the range's address: `offset`
-- shifts every access alike. `max_blocks` is the const generic. Every index into `blocks` is below
-- `block_count`, so `blocks` is a function. A walk along a free list takes fuel, and `none` means
-- that the fuel ran out.
pub mod Add
pub mod Alloc
pub mod Chain
pub mod Cut
pub mod Find
pub mod Free
pub mod Ranges
pub mod Valid
pub mod Walk
pub mod Whole
use maram_os.Base.{
  add64, u64_mod, ◌%◌, ℕ, zero, suc, ◌+◌, ◌-◌, ◌*◌, ◌%◌, ◌≡◌, Bool, true, false, ◌&&◌, not, Option,
  some, none, ltb, leb, ◌==◌, if◌then◌else◌, add64, add32, u32_mod, update,
}
use maram_os.Allocators.Buddy.{Cell, Link, head, block}

pub record BlockInfo : Type 0 where
  pub phys_base : ℕ
  pub total_blocks : ℕ
  pub allocated_blocks : ℕ
  pub free_list : ℕ
  pub used : Bool

pub record PageSlab : Type 0 where
  pub blocks : ℕ → BlockInfo
  pub block_count : ℕ
  pub block_size : ℕ

-- A block with the memory that its free list lives in.
pub record Area : Type 0 where
  pub info : BlockInfo
  pub memory : ℕ → Cell

-- `*prev_field`, which is the block's `free_list` or the `next` of a range.
abbrev pub read_link : Area → Link → ℕ
read_link a head = a.info.free_list
read_link a (block p) = (a.memory p).next

abbrev pub write_link : Area → Link → ℕ → Area
write_link a head v = record a { info = record a.info { free_list = v } }
write_link a (block p) v = record a {
  memory = update a.memory p (record { next = v; count = (a.memory p).count });
}

abbrev pub write_range : (ℕ → Cell) → ℕ → ℕ → ℕ → ℕ → Cell
write_range memory addr next count = update memory addr (record { next = next; count = count })

abbrev pub add_allocated : Area → ℕ → Area
add_allocated a count = record a {
  info = record a.info { allocated_blocks = add32 a.info.allocated_blocks (count % u32_mod) };
}

module _ (block_size count : ℕ) where
  -- The range at `current` is large enough: it is unlinked, or its front is cut off.
  unfoldable pub cut : Area → Link → ℕ → Area
  cut a prev current =
      let rcount = (a.memory current).count in
      let rnext = (a.memory current).next in
      let split = add64 current (count * block_size) in
      let rest = write_range a.memory split rnext (rcount - count % u32_mod) in
      if rcount == count
      then add_allocated (write_link a prev rnext) count
      else add_allocated (write_link (record a { memory = rest }) prev split) count

  -- The `while` of `alloc_in_block`.
  unfoldable pub alloc_from : ℕ → Area → Link → ℕ → Option (Option ℕ × Area)
  alloc_from zero a prev current = none
  alloc_from (suc fuel) a prev current =
      let rest = alloc_from fuel a (block current) (a.memory current).next in
      if current == 0
      then some (none, a)
      else if leb count (a.memory current).count
      then some (some current, cut a prev current)
      else rest

  unfoldable pub alloc_in_block : ℕ → Area → Option (Option ℕ × Area)
  unfolding alloc_from
  alloc_in_block fuel a = alloc_from fuel a head a.info.free_list

abbrev pub no_block : BlockInfo
no_block = record {
  phys_base = 0;
  total_blocks = 0;
  allocated_blocks = 0;
  free_list = 0;
  used = false;
}

-- `PageSlab::new`.
abbrev pub new : ℕ → PageSlab
new block_size = record { blocks = λ _. no_block; block_count = 0; block_size = block_size }

abbrev pub area : PageSlab → (ℕ → Cell) → ℕ → Area
area s memory idx = record { info = s.blocks idx; memory = memory }

abbrev pub set_block : PageSlab → ℕ → BlockInfo → PageSlab
set_block s idx info = record s { blocks = update s.blocks idx info }

-- What a function that may change the slab and the memory returns.
abbrev pub Outcome : Type 0 → Type 0
Outcome A = A × PageSlab × (ℕ → Cell)

-- `allocate` behind the search in a block: without a range there, the next block is tried.
unfoldable pub try_next :
    PageSlab → ℕ → Option (Outcome (Option ℕ)) → Option ℕ × Area → Option (Outcome (Option ℕ))
try_next s idx rest (none, a) = rest
try_next s idx rest (some addr, a) = some (some addr, set_block s idx a.info, a.memory)

-- The loop of `allocate` over the `rounds` blocks from `idx` on.
unfoldable pub allocate_from : ℕ → PageSlab → (ℕ → Cell) → ℕ → ℕ → ℕ → Option (Outcome (Option ℕ))
unfolding try_next
allocate_from fuel s memory count zero idx = some (none, s, memory)
allocate_from fuel s memory count (suc rounds) idx =
    let rest = allocate_from fuel s memory count rounds (idx + 1) in
    if not (s.blocks idx).used
    then rest
    else (elim (alloc_in_block s.block_size count fuel (area s memory idx)) [
      | none ↦ none
      | some r ↦ try_next s idx rest r
    ])

unfoldable pub allocate : ℕ → PageSlab → (ℕ → Cell) → ℕ → Option (Outcome (Option ℕ))
unfolding allocate_from
allocate fuel s memory count = allocate_from fuel s memory count s.block_count 0

-- Whether an address lies in a block, with the end as a number that does not wrap.
abbrev pub in_block : ℕ → BlockInfo → ℕ → Bool
in_block block_size b addr =
    leb b.phys_base addr && ltb addr (b.phys_base + b.total_blocks * block_size)

-- `addr >= b.phys_base && addr < end`.
abbrev pub holds : ℕ → BlockInfo → ℕ → Bool
holds block_size b addr =
    leb b.phys_base addr && ltb addr (add64 b.phys_base (b.total_blocks * block_size % u64_mod))

-- The loop of `find_block` over the `rounds` blocks from `idx` on.
unfoldable pub find_from : PageSlab → ℕ → ℕ → ℕ → Option ℕ
find_from s addr zero idx = none
find_from s addr (suc rounds) idx =
    let rest = find_from s addr rounds (idx + 1) in
    if not (s.blocks idx).used
    then rest
    else if holds s.block_size (s.blocks idx) addr
    then some idx
    else rest

unfoldable pub find_block : PageSlab → ℕ → Option ℕ
unfolding find_from
find_block s addr = find_from s addr s.block_count 0

unfoldable pub owns : PageSlab → ℕ → Bool
unfolding find_block
owns s addr = elim (find_block s addr) [ none ↦ false | some _ ↦ true ]

-- `free` behind the search: `checked_sub` fails after the range has joined the free list.
unfoldable pub free_at : PageSlab → (ℕ → Cell) → ℕ → ℕ → ℕ → Outcome (Option (ℕ × ℕ))
free_at s memory addr count idx =
    let b = s.blocks idx in
    let written = write_range memory addr b.free_list (count % u32_mod) in
    let linked = record b { free_list = addr } in
    let rem = b.allocated_blocks - count % u32_mod in
    let returned = record linked { allocated_blocks = rem } in
    if ltb b.allocated_blocks (count % u32_mod)
    then (none, set_block s idx linked, written)
    else if not (rem == 0)
    then (none, set_block s idx returned, written)
    else (
      some (b.phys_base, b.total_blocks),
      set_block s idx (record returned { used = false }),
      written,
    )

unfoldable pub free : PageSlab → (ℕ → Cell) → ℕ → ℕ → Outcome (Option (ℕ × ℕ))
unfolding free_at
free s memory addr count = elim (find_block s addr) [
  | none ↦ (none, s, memory)
  | some idx ↦ free_at s memory addr count idx
]

-- `position(|b| !b.used)` over the `rounds` blocks from `idx` on.
unfoldable pub unused_from : PageSlab → ℕ → ℕ → Option ℕ
unused_from s zero idx = none
unused_from s (suc rounds) idx =
    let rest = unused_from s rounds (idx + 1) in if not (s.blocks idx).used then some idx else rest

module _ (max_blocks : ℕ) where
  -- The block that `add_block` fills, and the number of blocks from then on.
  unfoldable pub free_slot : PageSlab → Option (ℕ × ℕ)
  unfolding unused_from
  free_slot s = elim (unused_from s s.block_count 0) [
    | some idx ↦ some (idx, s.block_count)
    | none ↦ if ltb s.block_count max_blocks then some (s.block_count, s.block_count + 1) else none
  ]

  abbrev pub new_block : ℕ → ℕ → BlockInfo
  new_block phys_base total_blocks = record {
    phys_base = phys_base;
    total_blocks = total_blocks;
    allocated_blocks = 0;
    free_list = phys_base;
    used = true;
  }

  unfoldable pub add_block : PageSlab → (ℕ → Cell) → ℕ → ℕ → Outcome Bool
  unfolding free_slot
  add_block s memory phys_base total_blocks = elim (free_slot s) [
    | none ↦ (false, s, memory)
    | some (idx, block_count) ↦ (
      true,
      set_block (record s { block_count = block_count }) idx (new_block phys_base total_blocks),
      write_range memory phys_base 0 total_blocks,
    )
  ]
