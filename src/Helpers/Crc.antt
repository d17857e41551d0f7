-- ===== src/Helpers/Crc.antt =====
-- kernel/src/helpers/crc.rs: the checksums of a list of bytes by a table. Every index into a table
-- is cut to eight bits, so the tables are functions of the index.
pub mod Bitwise
use Prim.Native.Nat.{bit_xor}
use maram_os.Base.{
  ℕ, zero, suc, ◌/◌, ◌%◌, ◌≡◌, List, [], ◌∷◌, ◌==◌, if◌then◌else◌, u64_mod, u32_mod, ◌-◌,
}

abbrev pub crc32_polynomial : ℕ
crc32_polynomial = 0xEDB8_8320

abbrev pub crc64_polynomial : ℕ
crc64_polynomial = 0xC96C_5795_D787_0F42

module _ (polynomial : ℕ) where
  -- One round of the loop over `j`.
  unfoldable pub shift : ℕ → ℕ
  shift crc = if crc % 2 == 1 then bit_xor (crc / 2) polynomial else crc / 2

  unfoldable pub shifts : ℕ → ℕ → ℕ
  unfolding shift
  shifts zero crc = crc
  shifts (suc rounds) crc = shifts rounds (shift crc)

  -- An entry of a table.
  abbrev pub entry : ℕ → ℕ
  entry i = shifts 8 i

abbrev pub crc32_table : ℕ → ℕ
crc32_table = entry crc32_polynomial

abbrev pub crc64_table : ℕ → ℕ
crc64_table = entry crc64_polynomial

-- The loop over the bytes, which both checksums share.
unfoldable pub add_bytes : (ℕ → ℕ) → ℕ → List ℕ → ℕ
add_bytes table crc [] = crc
add_bytes table crc (byte ∷ bytes) =
    let idx = bit_xor crc byte % 256 in add_bytes table (bit_xor (crc / 256) (table idx)) bytes

unfoldable pub crc32 : List ℕ → ℕ
unfolding add_bytes
crc32 bytes = bit_xor (add_bytes crc32_table (u32_mod - 1) bytes) (u32_mod - 1)

unfoldable pub crc64 : List ℕ → ℕ
unfolding add_bytes
crc64 bytes = bit_xor (add_bytes crc64_table (u64_mod - 1) bytes) (u64_mod - 1)
