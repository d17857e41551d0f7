-- ===== src/Tests/Bitmap.antt =====
-- Runs of the bitmap allocator of kernel/src/fs/lemonfs/bitmap.rs.
use maram_os.Base.{
  all_below, update, ℕ, zero, suc, ◌+◌, ◌*◌, ◌/◌, ◌≤◌, ◌<◌, ◌≡◌, ◌≢◌, refl, true, false, Option,
  none, some, List, [], ◌∷◌, arith, Bool-cases, inl, inr, ◌==◌,
}
use maram_os.Fs.Bitmap.{
  BlockState, BitmapAllocator, free, full, set_state, set_bit, each_bit, visit, find_from, alloc,
  free_blocks, find_first_fit, collapse, set_in, get,
}
use maram_os.Fs.Bitmap.Change.{is_set}
use maram_os.Fs.Bitmap.Search.{find_first_fit_complete, find_first_fit_misses}
use maram_os.Fs.Bitmap.Alloc.{Answers, alloc-Answers, free_blocks-alloc}

abbrev disk : BitmapAllocator
disk = record { blocks = full ∷ free ∷ free ∷ []; data_start = 10 }

-- A block of 4096 bits, the last of which is set, is of no use.
abbrev used_up : List BlockState
used_up = set_state free 4095 ∷ []

alloc-Answers_example :
    (out : Option ℕ × BitmapAllocator) × (alloc disk 5 ≡ some out) × Answers disk 5 out
alloc-Answers_example = alloc-Answers disk 5 (tt, (tt, (tt, tt)))

abbrev small_disk : BitmapAllocator
small_disk = record { blocks = free ∷ []; data_start = 10 }

abbrev one_used : BitmapAllocator
one_used = record { blocks = set_state free 0 ∷ []; data_start = 10 }

alloc_runs : alloc small_disk 1 ≡ some (some 10, one_used)
unfolding alloc find_first_fit find_from visit each_bit set_bit
alloc_runs = refl

free_blocks-alloc_example :
    (after : List BlockState) × (free_blocks one_used 10 1
      ≡ some (record one_used { blocks = after }))
    × ((n : ℕ) → is_set after n ≡ is_set small_disk.blocks n)
free_blocks-alloc_example =
    free_blocks-alloc small_disk one_used 1 10 (tt, tt) (omega arith) (omega arith) alloc_runs

find_first_fit_misses_example : find_first_fit used_up 9 ≡ none
unfolding is_set set_state collapse all_below set_in update get
find_first_fit_misses_example = find_first_fit_misses used_up 9 last
  where
    last : (k : ℕ) → k < 1 → is_set used_up (k * 4096 + 4095) ≡ true
    last zero h = refl
    last (suc k) h = absurd (omega arith)

clear_tail : (n : ℕ) → 4096 ≤ n → n < 12288 → is_set disk.blocks n ≡ false
unfolding is_set
clear_tail n lo hi = elim (Bool-cases (n / 4096 == 1)) [
  | inl e ↦ let q : n / 4096 ≡ 1 = ground arith in rw (is_set, q) refl
  | inr e ↦ let q : n / 4096 ≡ 2 = ground arith in rw (is_set, q) refl
]

find_first_fit_complete_example : find_first_fit disk.blocks 5000 ≢ none
find_first_fit_complete_example =
    find_first_fit_complete disk.blocks 5000 4096 2 (omega arith) (omega arith) (omega arith)
      clear_tail
