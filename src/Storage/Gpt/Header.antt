-- ===== src/Storage/Gpt/Header.antt =====
-- What an accepted GPT header satisfies.
use maram_os.Base.{
  ℕ, ◌+◌, ◌*◌, ◌≤◌, ◌<◌, ◌≡◌, Bool, true, ◌⊎◌, arith, leb, leb→le, if◌then◌else◌, Bool-cases, inl,
  inr, sub64, u64_mod, div_ceil, le-div_ceil,
}
use maram_os.Storage.Gpt.{GptHeader, check_gpt_header, gpt_sig}

scale : (a b size : ℕ) → a ≤ b → a * size ≤ b * size
scale a b size le = grind arith

spread : (start up size : ℕ) → (start + up) * size ≡ start * size + up * size
spread start up size = grind arith

array_fits :
    (start count size first : ℕ)
    → 0 < size
    → start + div_ceil count size ≤ first
    → start * size + count ≤ first * size
array_fits start count size first pos le =
    let up = le-div_ceil count size pos in
    let scaled = scale (start + div_ceil count size) first size le in
    let parts = spread start (div_ceil count size) size in
    go (div_ceil count size * size) ((start + div_ceil count size) * size) up scaled parts
  where
    go :
        (a b : ℕ)
        → count ≤ a
        → b ≤ first * size
        → b ≡ start * size + a
        → start * size + count ≤ first * size
    go a b p q r = omega arith

-- Of a header that is accepted: signature and checksum are right, it is at the place it names and
-- knows the other copy's, its size fits a block, its first usable block is not behind its last, and
-- the number of its last usable block is at most the number of blocks of the drive, so that it may
-- be one past the last block. The array of entries, of at least 128 entries of at least 128 bytes,
-- starts behind block 1, where the primary header is, and ends before the usable blocks, unless the
-- sum for its end is too large for 64 bits.
pub check_gpt_header_lem :
    (block_count block_size crc : ℕ) (h : GptHeader) (is_backup : Bool)
    → 0 < block_size
    → check_gpt_header block_count block_size crc h is_backup ≡ true
    → (h.signature ≡ gpt_sig)
      × (crc ≡ h.header_crc)
      × (h.size ≤ block_size)
      × (h.curr_block ≡ (if is_backup then sub64 block_count 1 else 1))
      × (h.backup_block ≡ (if is_backup then 1 else sub64 block_count 1))
      × (h.first_usable ≤ h.last_usable)
      × (h.last_usable ≤ block_count)
      × (128 ≤ h.entry_count)
      × (128 ≤ h.entry_byte_count)
      × (1 < h.entry_start)
      × ((u64_mod ≤ h.entry_start + div_ceil (h.entry_count * h.entry_byte_count) block_size)
          ⊎ (h.entry_start * block_size + h.entry_count * h.entry_byte_count
              ≤ h.first_usable * block_size))
unfolding check_gpt_header
check_gpt_header_lem block_count block_size crc h is_backup pos ok = (
  ground arith,
  ground arith,
  ground arith,
  ground arith,
  ground arith,
  ground arith,
  ground arith,
  ground arith,
  ground arith,
  ground arith,
  elim (Bool-cases
      (leb u64_mod (h.entry_start + div_ceil (h.entry_count * h.entry_byte_count) block_size))) [
        | inl e ↦ inl (leb→le _ _ e)
        | inr e ↦ inr (
            array_fits h.entry_start (h.entry_count * h.entry_byte_count) block_size h.first_usable
              pos (ground arith))
      ],
)
