-- ===== src/Fs/Bitmap/Alloc.antt =====
-- `alloc`, `free` and `reserve_from` of kernel/src/fs/lemonfs/bitmap.rs as changes of the set of
-- blocks in use.
use maram_os.Base.{
  ℕ, ◌+◌, ◌-◌, ◌*◌, ◌≤◌, ◌<◌, ◌≡◌, refl, true, false, ◌&&◌, Option, none, some, List, arith, ltb,
  leb, ◌∙◌, subst, if◌then◌else◌, Bool-cases, Option-cases, inl, inr, All, length, sub64, add64,
  u64_mod,
}
use maram_os.Fs.Bitmap.{
  BlockState, BitmapAllocator, alloc, free_blocks, reserve_from, find_first_fit, each_bit, set_bit,
  clear_bit,
}
use maram_os.Fs.Bitmap.Bits.{IsGood}
use maram_os.Fs.Bitmap.Change.{
  is_set, within, Changed, each_bit-Changed, set_bit-Writes, clear_bit-Writes,
}
use maram_os.Fs.Bitmap.Search.{Clear, find_first_fit-Clear}

-- What `alloc a count` gives: nothing, and the allocator as it was, or a run of `count` bits that
-- were clear and are now the only ones that changed.
abbrev pub Answers : BitmapAllocator → ℕ → Option ℕ × BitmapAllocator → Type 0
Answers a count (none, a') = (find_first_fit a.blocks count ≡ none) × (a' ≡ a)
Answers a count (some lba, a') =
    (start : ℕ) × (lba ≡ add64 start a.data_start)
    × (0 < count)
    × (start + count ≤ length a.blocks * 4096)
    × Clear a.blocks start (start + count)
    × Changed true start count a.blocks a'.blocks
    × (a'.data_start ≡ a.data_start)

-- When the bytes of the bitmap are below 256, `alloc` does not panic. If it returns `None` the
-- allocator is as it was. Otherwise the blocks it returns lie within the bitmap and were free,
-- there is at least one, and afterwards they and the blocks in use before are the ones in use.
pub alloc-Answers :
    (a : BitmapAllocator) (count : ℕ)
    → All IsGood a.blocks
    → (out : Option ℕ × BitmapAllocator) × (alloc a count ≡ some out) × Answers a count out
unfolding alloc
alloc-Answers a count good = elim (Option-cases (find_first_fit a.blocks count)) [
  | inl e ↦ ((none, a), rw (e, alloc) refl, (e, refl))
  | inr (s, e) ↦
      let (pos, le, clear) = find_first_fit-Clear a.blocks count s e in
      let (after, ran, changed) =
        each_bit-Changed true set_bit count s a.blocks set_bit-Writes good le in
      (
        (some (add64 s a.data_start), record a { blocks = after }),
        rw (e, ran, alloc) refl,
        (s, refl, pos, le, clear, changed, refl),
      )
]

-- When the bytes of the bitmap are below 256, `free` of blocks that the bitmap covers does not
-- panic, and clears the bits of these blocks and no other.
pub free_blocks-Changed :
    (a : BitmapAllocator) (start count : ℕ)
    → All IsGood a.blocks
    → sub64 start a.data_start + count ≤ length a.blocks * 4096
    → (after : List BlockState) × (free_blocks a start count ≡ some (record a { blocks = after }))
      × Changed false (sub64 start a.data_start) count a.blocks after
unfolding free_blocks
free_blocks-Changed a start count good le =
    let (after, ran, changed) =
      each_bit-Changed false clear_bit count (sub64 start a.data_start) a.blocks clear_bit-Writes
        good le in
    (after, rw (free_blocks, ran) refl, changed)

-- When the bytes of the bitmap are below 256, and the number of its bits and the start of the data
-- fit 64 bits, to allocate blocks and to free them again leaves every bit as it was.
pub free_blocks-alloc :
    (a a' : BitmapAllocator) (count lba : ℕ)
    → All IsGood a.blocks
    → length a.blocks * 4096 ≤ u64_mod
    → a.data_start < u64_mod
    → alloc a count ≡ some (some lba, a')
    → (after : List BlockState) × (free_blocks a' lba count ≡ some (record a' { blocks = after }))
      × ((n : ℕ) → is_set after n ≡ is_set a.blocks n)
free_blocks-alloc a a' count lba good small begins h =
    let (out, ran, answers) = alloc-Answers a count good in
    go (subst (Answers a count) (let p : out ≡ (some lba, a') = cc (ran, h) in p) answers)
  where
    back :
        (s : ℕ) (after : List BlockState)
        → Clear a.blocks s (s + count)
        → ((n : ℕ) → is_set a'.blocks n ≡ (if within s count n then true else is_set a.blocks n))
        → ((n : ℕ) → is_set after n ≡ (if within s count n then false else is_set a'.blocks n))
        → (n : ℕ) → is_set after n ≡ is_set a.blocks n
    back s after clear taken freed n = elim (Bool-cases (within s count n)) [
      | inl e ↦
          let lo : s ≤ n = ground arith in
          let hi : n < s + count = ground arith in freed n ∙ rw (e, clear n lo hi) refl
      | inr e ↦ freed n ∙ rw e (taken n ∙ rw e refl)
    ]

    go :
        Answers a count (some lba, a')
        → (after : List BlockState) × (free_blocks a' lba count
            ≡ some (record a' { blocks = after }))
          × ((n : ℕ) → is_set after n ≡ is_set a.blocks n)
    go (s, at, pos, le, clear, (good', len, taken), kept) =
        let offset : sub64 lba a'.data_start ≡ s = omega arith in
        let (after, freed, (good'', len', bits)) =
          free_blocks-Changed a' lba count good' (omega arith) in
        (
          after,
          freed,
          back s after clear taken (
              subst
                (λ x.
                  (n : ℕ)
                  → is_set after n ≡ (if within x count n then false else is_set a'.blocks n))
                offset bits),
        )

-- When the bytes of the bitmap are below 256, `reserve_from lba` does not panic. It does
-- nothing when `lba` is below the blocks of data; otherwise the blocks in use afterwards are
-- those before and all blocks of the bitmap after `lba`.
pub reserve_from-Reserved :
    (a : BitmapAllocator) (lba : ℕ)
    → All IsGood a.blocks
    → (after : List BlockState) × (reserve_from a lba ≡ some (record a { blocks = after }))
      × ((n : ℕ)
          → n < length a.blocks * 4096
          → is_set after n ≡ (
              if leb a.data_start lba && ltb lba (n + a.data_start)
              then true
              else is_set a.blocks n))
unfolding reserve_from each_bit
reserve_from-Reserved a lba good = elim (Bool-cases (ltb lba a.data_start)) [
  | inl e ↦ (a.blocks, rw (e, reserve_from) refl, λ n hn. ground arith)
  | inr e ↦ elim (Bool-cases (leb (length a.blocks * 4096) (lba - a.data_start + 1))) [
    | inl past ↦
        let none_left : length a.blocks * 4096 - (lba - a.data_start + 1) ≡ 0 = ground arith in
        (a.blocks, rw (e, none_left, reserve_from) refl, λ n hn. ground arith)
    | inr inside ↦
        let (after, ran, (good', len, bits)) =
          each_bit-Changed true set_bit (length a.blocks * 4096 - (lba - a.data_start + 1))
            (lba - a.data_start + 1) a.blocks set_bit-Writes good (ground arith) in
        (after, rw (e, ran, reserve_from) refl, λ n hn. ground (arith, bits n))
  ]
]
