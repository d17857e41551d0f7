-- ===== src/Fs/Sectors.antt =====
-- kernel/src/fs/lba_abstractor.rs: sectors of 512 bytes on a partition of larger blocks. Memory and
-- the partition are functions from the offset of a sector, in bytes, to what the sector holds; a
-- read or write of blocks past the end of the partition fails (kernel/src/drivers/storage/mod.rs).
-- Sector numbers stay below 2 ^ 55, so their sums and products are plain.
pub mod Stage
pub mod Write
use maram_os.Base.{
  ℕ, zero, suc, ◌+◌, ◌-◌, ◌*◌, ◌/◌, ◌&&◌, min, Option, none, some, ltb, leb, ◌==◌, if◌then◌else◌,
  update, div_ceil, max,
}

abbrev pub page_size : ℕ
page_size = 4096

module _ {ℓ} {A : Type ℓ} where
  -- `for j in from..` with the rounds that are left: the sector at `to j` becomes `value j`.
  unfoldable pub copy_sectors : ℕ → ℕ → (ℕ → A) → (ℕ → ℕ) → (ℕ → A) → ℕ → A
  copy_sectors zero from value to staging = staging
  copy_sectors (suc rounds) from value to staging =
      copy_sectors rounds (from + 1) value to (update staging (to from) (value from))

  -- `drive.read(&partition, block, 1)`.
  unfoldable pub read_block : ℕ → ℕ → (ℕ → A) → ℕ → Option (ℕ → A)
  read_block block_size size_blocks disk block =
      if ltb size_blocks (block + 1)
      then none
      else some (λ offset. disk (block * block_size + offset))

  -- The body of the loop of `write_sectors`, for one block.
  unfoldable pub stage_block : ℕ → ℕ → (ℕ → A) → (ℕ → A) → ℕ → ℕ → ℕ → ℕ → (ℕ → A) → Option (ℕ → A)
  unfolding copy_sectors read_block
  stage_block block_size size_blocks disk src start count native_start native_block staging =
      let sectors_per_block = block_size / 512 in
      let first = native_block * sectors_per_block in
      let last = first + sectors_per_block - 1 in
      let covered_start = max first start in
      let covered_end = min last (start + count - 1) in
      let to = λ (j : ℕ). j * 512 - native_start * block_size in
      let own =
        copy_sectors (covered_end + 1 - covered_start) covered_start (λ j. src ((j - start) * 512))
          to in
      if (covered_start == first) && (covered_end == last)
      then some (own staging)
      else elim (read_block block_size size_blocks disk native_block) [
        | none ↦ none
        | some tmp ↦ some (
            own (
              copy_sectors (last + 1 - first) first (λ j. tmp (j * 512 - native_block * block_size))
                to staging))
      ]

  unfoldable pub stage_blocks :
      ℕ → ℕ → (ℕ → A) → (ℕ → A) → ℕ → ℕ → ℕ → ℕ → ℕ → (ℕ → A) → Option (ℕ → A)
  unfolding stage_block
  stage_blocks block_size size_blocks disk src start count native_start zero i staging =
      some staging
  stage_blocks block_size size_blocks disk src start count native_start (suc rounds) i staging =
      elim (stage_block block_size size_blocks disk src start count native_start (native_start + i)
        staging) [
          | none ↦ none
          | some staging' ↦
              stage_blocks block_size size_blocks disk src start count native_start rounds (i + 1)
                staging'
        ]

  -- `drive.write(&partition, start, count, staging)`.
  unfoldable pub write_blocks : ℕ → ℕ → (ℕ → A) → ℕ → ℕ → (ℕ → A) → Option (ℕ → A)
  write_blocks block_size size_blocks disk start count staging =
      if ltb size_blocks (start + count)
      then none
      else some (λ address.
        if leb (start * block_size) address && ltb address ((start + count) * block_size)
        then staging (address - start * block_size)
        else disk address)

  -- `write_sectors`, for `src` of `src_pages` pages and a new staging area that holds `zeroed`.
  unfoldable pub write_sectors : ℕ → ℕ → A → (ℕ → A) → ℕ → ℕ → ℕ → (ℕ → A) → Option (ℕ → A)
  unfolding stage_blocks write_blocks
  write_sectors block_size size_blocks zeroed disk start count src_pages src =
      let native_start = start * 512 / block_size in
      let native_end = div_ceil ((start + count) * 512) block_size in
      let native_count = native_end - native_start in
      if count == 0
      then some disk
      else if ltb (src_pages * page_size) (count * 512)
      then none
      else elim (stage_blocks block_size size_blocks disk src start count native_start native_count
          0 (λ offset. zeroed)) [
            | none ↦ none
            | some staging ↦
                write_blocks block_size size_blocks disk native_start native_count staging
          ]
