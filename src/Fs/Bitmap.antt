-- ===== src/Fs/Bitmap.antt =====
-- kernel/src/fs/lemonfs/bitmap.rs: the block allocator of LemonFS. A `BitmapBlock` is a function
-- from the index of a byte, below 512, to the byte. An index past the end of `blocks` is a panic,
-- which is `none`. Bit numbers stay far below 2 ^ 64, so their sums are plain.
pub mod Bits
pub mod Change
pub mod Search
pub mod Alloc
use Prim.Native.Nat.{bit_and, bit_or}
use maram_os.Base.{
  add64, ℕ, zero, suc, ◌+◌, ◌-◌, ◌*◌, ◌/◌, ◌%◌, ◌^◌, Bool, true, false, Option, none, some, List,
  [], ◌∷◌, ◌++◌, ltb, leb, ◌==◌, if◌then◌else◌, update, all_below, get_elem?, set, length,
  checked_sub, sub64,
}

abbrev pub BitmapBlock : Type 0
BitmapBlock = ℕ → ℕ

pub data BlockState : Type 0 where
  free : BlockState
  full : BlockState
  mixed : BitmapBlock → BlockState

pub record BitmapAllocator : Type 0 where
  pub blocks : List BlockState
  pub data_start : ℕ

abbrev pub bits_per_block : ℕ
bits_per_block = 4096

abbrev pub new : ℕ → BitmapAllocator
new data_start = record { blocks = []; data_start = data_start }

abbrev pub block_of : ℕ → ℕ
block_of bit = bit / bits_per_block

abbrev pub bit_in : ℕ → ℕ
bit_in bit = bit % bits_per_block

-- `BitmapBlock::get`, `set` and `clear`.
unfoldable pub get : BitmapBlock → ℕ → Bool
get b bit = (b (bit / 8) / 2 ^ (bit % 8)) % 2 == 1

unfoldable pub set_in : BitmapBlock → ℕ → BitmapBlock
set_in b bit = update b (bit / 8) (bit_or (b (bit / 8)) (2 ^ (bit % 8)))

unfoldable pub clear_in : BitmapBlock → ℕ → BitmapBlock
clear_in b bit = update b (bit / 8) (bit_and (b (bit / 8)) (255 - 2 ^ (bit % 8)))

-- `collapse` at one block.
unfoldable pub collapse : BlockState → BlockState
collapse (mixed b) =
    if all_below 512 (λ i. b i == 0)
    then free
    else if all_below 512 (λ i. b i == 255)
    then full
    else mixed b
collapse s = s

unfoldable pub add_block : BitmapAllocator → BitmapBlock → BitmapAllocator
add_block a b = record a { blocks = a.blocks ++ collapse (mixed b) ∷ [] }

-- `is_free`.
unfoldable pub is_free : BitmapAllocator → ℕ → Option Bool
is_free a bit = elim (get_elem? a.blocks (block_of bit)) [
  | none ↦ none
  | some free ↦ some true
  | some full ↦ some false
  | some (mixed b) ↦ some (if get b (bit_in bit) then false else true)
]

-- `materialize`: the bytes that a free or a full block stands for.
abbrev pub materialize : ℕ → BitmapBlock
materialize fill _ = fill

-- `set_bit` and `clear_bit` at one block.
unfoldable pub set_state : BlockState → ℕ → BlockState
set_state full i = full
set_state free i = collapse (mixed (set_in (materialize 0) i))
set_state (mixed b) i = collapse (mixed (set_in b i))

unfoldable pub clear_state : BlockState → ℕ → BlockState
clear_state free i = free
clear_state full i = collapse (mixed (clear_in (materialize 255) i))
clear_state (mixed b) i = collapse (mixed (clear_in b i))

unfoldable pub set_bit : List BlockState → ℕ → Option (List BlockState)
set_bit blocks bit = elim (get_elem? blocks (block_of bit)) [
  | none ↦ none
  | some s ↦ some (set blocks (block_of bit) (set_state s (bit_in bit)))
]

unfoldable pub clear_bit : List BlockState → ℕ → Option (List BlockState)
clear_bit blocks bit = elim (get_elem? blocks (block_of bit)) [
  | none ↦ none
  | some s ↦ some (set blocks (block_of bit) (clear_state s (bit_in bit)))
]

-- The variables `start` and `run` of `find_first_fit`.
pub record Run : Type 0 where
  pub start : Option ℕ
  pub run : ℕ

-- `if start.is_none() { start = Some(at) } run += by`.
abbrev pub extend : Run → ℕ → ℕ → Run
extend r at by = record {
  start = elim r.start [ none ↦ some at | some s ↦ some s ];
  run = r.run + by;
}

abbrev pub stop : Run
stop = record { start = none; run = 0 }

-- The inner `for`, with the rounds that are left.
unfoldable pub scan_bits : ℕ → BitmapBlock → ℕ → ℕ → Run → Run
scan_bits zero b base bit r = r
scan_bits (suc rounds) b base bit r =
    scan_bits rounds b base (bit + 1) (if get b bit then stop else extend r (base + bit) 1)

unfoldable pub visit : BlockState → ℕ → Run → Run
visit free block r = extend r (block * bits_per_block) bits_per_block
visit full block r = stop
visit (mixed b) block r = scan_bits bits_per_block b (block * bits_per_block) 0 r

-- The outer `for`, from the block with index `block` on.
unfoldable pub find_from : List BlockState → ℕ → ℕ → Run → Option ℕ
find_from [] count block r = none
find_from (s ∷ rest) count block r =
    let r' = visit s block r in
    let later = find_from rest count (block + 1) r' in if leb count r'.run then r'.start else later

unfoldable pub find_first_fit : List BlockState → ℕ → Option ℕ
unfolding find_from
find_first_fit blocks count = if count == 0 then none else find_from blocks count 0 stop

-- `for x in 0..count { step(x + from) }`, with the rounds that are left.
unfoldable pub each_bit :
    (List BlockState → ℕ → Option (List BlockState))
    → ℕ
    → ℕ
    → List BlockState
    → Option (List BlockState)
each_bit step zero from blocks = some blocks
each_bit step (suc rounds) from blocks = elim (step blocks from) [
  | none ↦ none
  | some blocks' ↦ each_bit step rounds (from + 1) blocks'
]

-- The outer `none` is a panic, the inner one the `None` of the code.
unfoldable pub alloc : BitmapAllocator → ℕ → Option (Option ℕ × BitmapAllocator)
alloc a count = elim (find_first_fit a.blocks count) [
  | none ↦ some (none, a)
  | some start ↦ elim (each_bit set_bit count start a.blocks) [
    | none ↦ none
    | some blocks ↦ some (some (add64 start a.data_start), record a { blocks = blocks })
  ]
]

unfoldable pub free_blocks : BitmapAllocator → ℕ → ℕ → Option BitmapAllocator
free_blocks a start count = elim (each_bit clear_bit count (sub64 start a.data_start) a.blocks) [
  | none ↦ none
  | some blocks ↦ some (record a { blocks = blocks })
]

unfoldable pub reserve_from : BitmapAllocator → ℕ → Option BitmapAllocator
reserve_from a lba = elim (checked_sub lba a.data_start) [
  | none ↦ some a
  | some start_bit ↦
      elim (each_bit set_bit (length a.blocks * bits_per_block - (start_bit + 1)) (start_bit + 1)
        a.blocks) [ none ↦ none | some blocks ↦ some (record a { blocks = blocks }) ]
]

-- The bytes that `sync` writes for one block.
unfoldable pub raw_block : BlockState → BitmapBlock
raw_block free = materialize 0
raw_block full = materialize 255
raw_block (mixed b) = b
