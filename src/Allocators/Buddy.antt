-- ===== src/Allocators/Buddy.antt =====
-- kernel/src/allocators/buddy.rs: the buddy allocator behind the physical page allocator and the
-- kernel heap. The free lists live in the free blocks themselves, so the state holds the memory
-- that `ptr` reads and writes. Memory is indexed by the block's address: `offset` shifts every
-- access alike. `min_order` and `order_count` are the const generics; every index into `heads` is
-- guarded by `max_order`, so `heads` is a function. A walk along a free list takes fuel, and
-- `none` means that the fuel ran out.
pub mod Alloc
pub mod Chain
pub mod Cover
pub mod Free
pub mod Split
pub mod Unlink
pub mod Valid
use Prim.Native.Nat.{bit_xor}
use maram_os.Base.{
  ℕ, zero, suc, ◌+◌, ◌-◌, ◌^◌, ◌<◌, ◌≡◌, Bool, true, false, Option, none, some, List, [], ltb, ◌==◌,
  if◌then◌else◌, min, add64, update,
}

-- The first bytes of a free block: `FreeRange` of slab.rs, whose `next` stands where the buddy
-- allocator keeps its link.
pub record Cell : Type 0 where
  pub next : ℕ
  pub count : ℕ

pub record Buddy : Type 0 where
  pub heads : ℕ → ℕ
  pub memory : ℕ → Cell

abbrev pub read_next : Buddy → ℕ → ℕ
read_next b addr = (b.memory addr).next

abbrev pub write_next : Buddy → ℕ → ℕ → Buddy
write_next b addr v = record b {
  memory = update b.memory addr (record { next = v; count = (b.memory addr).count });
}

abbrev pub set_head : Buddy → ℕ → ℕ → Buddy
set_head b order v = record b { heads = update b.heads order v }

unfoldable pub push : Buddy → ℕ → ℕ → Buddy
push b addr order = set_head (write_next b addr (b.heads order)) order addr

unfoldable pub pop : Buddy → ℕ → Option ℕ × Buddy
pop b order =
    let head = b.heads order in
    if head == 0 then (none, b) else (some head, set_head b order (read_next b head))

-- `prev_ptr`: the list's head, or the link in a block.
pub data Link : Type 0 where
  head : Link
  block : ℕ → Link

abbrev pub write_link : Buddy → ℕ → Link → ℕ → Buddy
write_link b order head v = set_head b order v
write_link b order (block p) v = write_next b p v

-- The `while` of `remove`.
unfoldable pub remove_from : ℕ → Buddy → ℕ → ℕ → Link → ℕ → Option (Bool × Buddy)
remove_from zero b addr order prev current = none
remove_from (suc fuel) b addr order prev current =
    let rest = remove_from fuel b addr order (block current) (read_next b current) in
    if current == 0
    then some (false, b)
    else if current == addr
    then some (true, write_link b order prev (read_next b current))
    else rest

unfoldable pub remove : ℕ → Buddy → ℕ → ℕ → Option (Bool × Buddy)
unfolding remove_from
remove fuel b addr order = remove_from fuel b addr order head (b.heads order)

module _ (min_order : ℕ) where
  abbrev pub block_size : ℕ → ℕ
  block_size order = 2 ^ (order + min_order)

  abbrev pub buddy_of : ℕ → ℕ → ℕ
  buddy_of addr order = bit_xor addr (block_size order)

module _ (min_order order_count : ℕ) where
  abbrev pub max_order : ℕ
  max_order = order_count - 1

  -- The search of `alloc` for a list that is not empty, with the rounds that are left.
  unfoldable pub find_order : ℕ → Buddy → ℕ → Option ℕ
  find_order zero b found = none
  find_order (suc rounds) b found =
      let rest = find_order rounds b (found + 1) in if b.heads found == 0 then rest else some found

  -- `while found > order`, with `rounds` for `found - order`: the upper half goes to the free list.
  unfoldable pub split_down : ℕ → Buddy → ℕ → ℕ → Buddy
  split_down zero b at order = b
  split_down (suc rounds) b at order =
      split_down rounds (push b (add64 at (block_size min_order (order + rounds))) (order + rounds))
        at order

  -- `alloc` behind the search and the `pop`.
  unfoldable pub alloc_at : ℕ → ℕ → Option ℕ × Buddy → Option ℕ × Buddy
  alloc_at order found (none, b) = (none, b)
  alloc_at order found (some at, b) = (some at, split_down (found - order) b at order)

  unfoldable pub alloc : Buddy → ℕ → Option ℕ × Buddy
  unfolding alloc_at
  alloc b order =
      if ltb max_order order then (none, b) else (elim (find_order (order_count - order) b order) [
        | none ↦ (none, b)
        | some found ↦ alloc_at order found (pop b found)
      ])

  -- The loop of `free_with`, with `rounds` for `max_order - order`.
  unfoldable pub merge_up : ℕ → ℕ → (ℕ → ℕ → Bool) → Buddy → ℕ → ℕ → Option Buddy
  merge_up zero fuel can_merge b addr order = some (push b addr order)
  merge_up (suc rounds) fuel can_merge b addr order =
      let buddy = buddy_of min_order addr order in
      if can_merge buddy order
      then (elim (remove fuel b buddy order) [
        | none ↦ none
        | some (removed, b') ↦
            let merged = merge_up rounds fuel can_merge b' (min addr buddy) (order + 1) in
            if removed then merged else some (push b' addr order)
      ])
      else some (push b addr order)

  unfoldable pub free_with : ℕ → Buddy → ℕ → ℕ → (ℕ → ℕ → Bool) → Option Buddy
  unfolding merge_up
  free_with fuel b addr order can_merge =
      if ltb max_order order
      then some b
      else merge_up (max_order - order) fuel can_merge b addr order

  -- `free`: every merge is allowed.
  unfoldable pub free : ℕ → Buddy → ℕ → ℕ → Option Buddy
  unfolding free_with
  free fuel b addr order = free_with fuel b addr order (λ _ _. true)
