-- ===== src/Storage/Drive.antt =====
-- kernel/src/drivers/storage/mod.rs: the bounds that `Drive` checks before it passes a request on,
-- and the chunks in which `zero_blocks` writes. A request is a first block and a number of blocks;
-- the device that serves it is left out.
pub mod Bounds
use maram_os.Base.{
  ℕ, zero, suc, ◌+◌, ◌-◌, ◌*◌, ◌/◌, ◌%◌, ◌^◌, ◌≤◌, ◌<◌, ◌≡◌, ◌≢◌, refl, Bool, true, false, ◌||◌,
  ◌&&◌, ◌⊎◌, min, Option, none, some, List, [], ◌∷◌, ◌++◌, arith, ltb, leb, ◌==◌, ==_iff, ◌∙◌, ap,
  sym, subst, ltb→lt, if◌then◌else◌, update, all_below, all_below_sound, Bool-cases, Option-cases,
  inl, inr, All, All-get_elem?, All-set, length-set, set, length, get_elem?, get_elem?-set_self,
  get_elem?-set_ne, get_elem?_below, sub64, u64_mod, checked_sub, checked_add, div_ceil,
  append_assoc, append-nil, length-append,
}
use maram_os.Storage.Gpt.{Partition}

pub data StorageError : Type 0 where
  pcie_error : StorageError
  init_failed : StorageError
  block_out_of_bounds : StorageError
  command_failed : StorageError
  timeout : StorageError

pub data Reply : Type 0 where
  request : (first count : ℕ) → Reply
  refused : StorageError → Reply

unfoldable pub zero_request : Partition → ℕ → ℕ → Reply
zero_request p offset count = elim (checked_add offset count) [
  | none ↦ refused block_out_of_bounds
  | some end ↦
      if ltb p.size_blocks end
      then refused block_out_of_bounds
      else elim (checked_add p.start offset) [
        | none ↦ refused block_out_of_bounds
        | some first ↦ request first count
      ]
]

unfoldable pub read_request : Partition → ℕ → ℕ → Reply
read_request p offset count = elim (checked_add offset count) [
  | none ↦ refused block_out_of_bounds
  | some end ↦
      if ltb p.size_blocks end
      then refused block_out_of_bounds
      else elim (checked_add p.start offset) [
        | none ↦ refused block_out_of_bounds
        | some first ↦ request first count
      ]
]

-- `write`, of `src` with `src_pages` pages to blocks of `block_size` bytes.
unfoldable pub write_request : ℕ → Partition → ℕ → ℕ → ℕ → Reply
write_request block_size p offset count src_pages = elim (checked_add offset count) [
  | none ↦ refused block_out_of_bounds
  | some end ↦
      if ltb p.size_blocks end
      then refused block_out_of_bounds
      else if ltb (src_pages * 4096 % u64_mod) (count * block_size % u64_mod)
      then refused command_failed
      else elim (checked_add p.start offset) [
        | none ↦ refused block_out_of_bounds
        | some first ↦ request first count
      ]
]

-- The loop of `zero_blocks`, of at most `most` blocks at once, on fuel; `none` when it runs out.
unfoldable pub chunks : ℕ → ℕ → ℕ → ℕ → Option (List (ℕ × ℕ))
chunks zero most first rem = none
chunks (suc fuel) most first rem =
    let rest = chunks fuel most (first + min rem most) (rem - min rem most) in
    if rem == 0
    then some []
    else elim rest [ none ↦ none | some more ↦ some ((first, min rem most) ∷ more) ]

-- The pages of the zeroed buffer, and the writes from it.
unfoldable pub zero_blocks : ℕ → ℕ → ℕ → ℕ → ℕ × Option (List (ℕ × ℕ))
unfolding chunks
zero_blocks fuel block_size first count = (
  min (div_ceil (count * block_size % u64_mod) 4096) 512,
  chunks fuel (1024 * 1024 * 2 / block_size) first count,
)

-- `zero_sectors` of kernel/src/fs/lba_abstractor.rs: the pages of its buffer, and its writes.
unfoldable pub zero_sectors : ℕ → ℕ → ℕ → ℕ × Option (List (ℕ × ℕ))
unfolding chunks
zero_sectors fuel first count =
    if count == 0
    then (0, some [])
    else (div_ceil (min count 0x1000) 8, chunks fuel 0x1000 first count)
