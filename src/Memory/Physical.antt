-- ===== src/Memory/Physical.antt =====
-- kernel/src/memory/physical.rs: the set-up of the page allocator from the memory map. The map of
-- the boot loader is a list. A loop over the pages of an entry takes fuel, and `none` means that
-- the fuel ran out.
pub mod Init
pub mod Pages
use maram_os.Base.{
  ℕ, zero, suc, ◌+◌, ◌-◌, ◌%◌, ◌≡◌, Bool, true, false, ◌&&◌, Option, some, none, List, [], ◌∷◌, ltb,
  leb, ◌==◌, if◌then◌else◌, add64, u64_mod, next_multiple_of,
}
use maram_os.Allocators.Buddy.{Buddy, push, block_size}

-- The const generics of `Buddy`.
abbrev pub min_order : ℕ
min_order = 12

abbrev pub order_count : ℕ
order_count = 19

abbrev pub page_size : ℕ
page_size = 4096

-- An entry of the memory map, with whether its type is `MEMMAP_USABLE`.
pub record Entry : Type 0 where
  pub base : ℕ
  pub length : ℕ
  pub usable : Bool

-- `while order != 0 && !(rem >= block && addr.is_multiple_of(block))`.
unfoldable pub fit_order : ℕ → ℕ → ℕ → ℕ
fit_order zero rem addr = 0
fit_order (suc order) rem addr =
    let smaller = fit_order order rem addr in
    let size = block_size min_order (suc order) in
    if leb size rem && (addr % size == 0) then suc order else smaller

-- `while addr + PAGE_SIZE as u64 <= end`.
unfoldable pub push_pages : ℕ → Buddy → ℕ → ℕ → Option Buddy
push_pages zero b addr end = none
push_pages (suc fuel) b addr end =
    let order = fit_order (order_count - 1) (end - addr) addr in
    let rest = push_pages fuel (push b addr order) (add64 addr (block_size min_order order)) end in
    if leb (add64 addr page_size) end then rest else some b

-- `next_multiple_of(PAGE_SIZE)` on 64 bits.
abbrev pub next_page : ℕ → ℕ
next_page base = next_multiple_of base page_size % u64_mod

unfoldable pub push_entry : ℕ → Buddy → Entry → Option Buddy
unfolding push_pages
push_entry fuel b entry =
    if entry.usable
    then push_pages fuel b (next_page entry.base) (add64 entry.length entry.base)
    else some b

-- `init`.
unfoldable pub init : ℕ → Buddy → List Entry → Option Buddy
unfolding push_entry
init fuel b [] = some b
init fuel b (entry ∷ entries) = elim (push_entry fuel b entry) [
  | none ↦ none
  | some b' ↦ init fuel b' entries
]
