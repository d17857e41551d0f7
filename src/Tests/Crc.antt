-- ===== src/Tests/Crc.antt =====
-- Runs of the checksums of kernel/src/helpers/crc.rs.
use Prim.Native.Nat.{bit_xor}
use maram_os.Base.{ℕ, ◌≡◌, refl, List, [], ◌∷◌, arith}
use maram_os.Helpers.Crc.{shift, shifts, crc32, crc64}
use maram_os.Helpers.Crc.Bitwise.{add_bits, crcs-add_bits}

-- The check value of CRC-32 and of CRC-64 / XZ: the digits from 1 to 9.
abbrev digits : List ℕ
digits = 0x31 ∷ 0x32 ∷ 0x33 ∷ 0x34 ∷ 0x35 ∷ 0x36 ∷ 0x37 ∷ 0x38 ∷ 0x39 ∷ []

check32 : crc32 digits ≡ 0xCBF4_3926
unfolding crc32 shift shifts
check32 = refl

check64 : crc64 digits ≡ 0x995D_C9BB_DF19_39FA
unfolding crc64 shift shifts
check64 = refl

crcs-add_bits_example :
    (crc32 (0x31 ∷ []) ≡ bit_xor (add_bits 0xEDB8_8320 0xFFFF_FFFF (0x31 ∷ [])) 0xFFFF_FFFF)
    × (crc64 (0x31 ∷ [])
        ≡ bit_xor
            (add_bits 0xC96C_5795_D787_0F42 0xFFFF_FFFF_FFFF_FFFF (0x31 ∷ []))
            0xFFFF_FFFF_FFFF_FFFF)
crcs-add_bits_example = crcs-add_bits (0x31 ∷ []) (omega arith, tt)
