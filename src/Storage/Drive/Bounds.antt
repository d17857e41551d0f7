-- ===== src/Storage/Drive/Bounds.antt =====
-- The requests of kernel/src/drivers/storage/mod.rs stay in the partition, and the chunks cover
-- what is to be zeroed.
use maram_os.Base.{
  ℕ, zero, suc, ◌+◌, ◌-◌, ◌/◌, ◌≤◌, ◌<◌, ◌≡◌, refl, min, some, List, [], ◌∷◌, arith, ◌==◌, subst,
  Bool-cases, inl, inr,
}
use native.Mathlib.Nat.{div-add-mod, mod-lt}
use maram_os.Storage.Gpt.{Partition}
use maram_os.Storage.Drive.{
  Reply, request, refused, zero_request, read_request, write_request, chunks, zero_blocks,
  zero_sectors,
}

-- Blocks of the partition, as many as were asked for.
abbrev pub Within : Partition → ℕ → ℕ → Reply → Type 0
Within p offset count (request first n) =
    (first ≡ p.start + offset) × (n ≡ count) × (first + n ≤ p.start + p.size_blocks)
Within p offset count (refused e) = Unit

-- A read, a write or a zeroing that `Drive` passes on is for as many blocks as were asked for, at
-- the offset into the partition, and for no block outside the partition.
pub requests-Within :
    (block_size : ℕ) (p : Partition) (offset count src_pages : ℕ)
    → Within p offset count (read_request p offset count)
      × Within p offset count (write_request block_size p offset count src_pages)
      × Within p offset count (zero_request p offset count)
unfolding read_request write_request zero_request
requests-Within block_size p offset count src_pages = (ground arith, ground arith, ground arith)

-- Requests of at most `most` blocks, none empty, one behind the other from `from` up to `to`.
abbrev pub Tiles : ℕ → ℕ → ℕ → List (ℕ × ℕ) → Type 0
Tiles most from to [] = from ≡ to
Tiles most from to ((first, count) ∷ rest) =
    (first ≡ from) × (0 < count) × (count ≤ most) × Tiles most (from + count) to rest

chunks-Tiles :
    (fuel most first rem : ℕ)
    → 0 < most
    → rem < fuel
    → (requests : List (ℕ × ℕ)) × (chunks fuel most first rem ≡ some requests)
      × Tiles most first (first + rem) requests
unfolding chunks
chunks-Tiles zero most first rem pos enough = absurd (omega arith)
chunks-Tiles (suc fuel) most first rem pos enough = elim (Bool-cases (rem == 0)) [
  | inl e ↦ ([], rw e refl, ground arith)
  | inr e ↦
      let some_left : 0 < rem = ground arith in
      let less : rem - min rem most < fuel = ground arith in
      let (more, ran, tiles) =
        chunks-Tiles fuel most (first + min rem most) (rem - min rem most) pos less in
      let end : first + min rem most + (rem - min rem most) ≡ first + rem = ground arith in
      (
        (first, min rem most) ∷ more,
        rw (e, chunks, ran) refl,
        (
          refl,
          ground arith,
          ground arith,
          subst (λ n. Tiles most (first + min rem most) n more) end tiles,
        ),
      )
]

-- With more fuel than blocks, for blocks of at most 2 MiB, the writes of `zero_blocks` cover the
-- `count` blocks from `first` on, each once and in order, at most 2 MiB at once.
pub zero_blocks-Tiles :
    (fuel block_size first count : ℕ)
    → 0 < block_size
    → block_size ≤ 2097152
    → count < fuel
    → (requests : List (ℕ × ℕ)) × ((zero_blocks fuel block_size first count).1 ≡ some requests)
      × Tiles (2097152 / block_size) first (first + count) requests
unfolding zero_blocks
zero_blocks-Tiles fuel block_size first count pos small enough =
    let most : 0 < 2097152 / block_size =
      grind (arith, div-add-mod 2097152 block_size, mod-lt 2097152 pos) in
    chunks-Tiles fuel (2097152 / block_size) first count most enough

-- With more fuel than sectors, the writes of `zero_sectors` cover the `count` sectors from `first`
-- on, each once and in order, at most 4096 at once.
pub zero_sectors-Tiles :
    (fuel first count : ℕ)
    → count < fuel
    → (requests : List (ℕ × ℕ)) × ((zero_sectors fuel first count).1 ≡ some requests)
      × Tiles 4096 first (first + count) requests
unfolding zero_sectors
zero_sectors-Tiles fuel first count enough = elim (Bool-cases (count == 0)) [
  | inl e ↦ ([], rw (zero_sectors, e) refl, ground arith)
  | inr e ↦
      let (requests, ran, tiles) = chunks-Tiles fuel 4096 first count (omega arith) enough in
      (requests, rw (zero_sectors, e) ran, tiles)
]
