-- ===== src/Helpers/Crc/Bitwise.antt =====
-- The checksums of kernel/src/helpers/crc.rs by a table are those of a register that takes the
-- bits one by one.
use Prim.Native.Nat.{bit_xor, differ}
use native.Mathlib.Nat.{pow-suc, pow-succ', div-div-eq-div-mul}
use maram_os.Base.{
  ℕ, zero, suc, ◌+◌, ◌*◌, ◌/◌, ◌%◌, ◌^◌, ◌<◌, ◌≡◌, refl, sym, ap, ◌∙◌, false, List, [], ◌∷◌, All,
  arith, ◌==◌, if◌then◌else◌, Bool-cases, inl, inr, bit_xor_step, bit_xor-zero, zero-bit_xor,
  bit_xor-half, bit_xor-mod, bit_xor_comm, bit_xor_assoc, bit_xor_self,
}
use maram_os.Helpers.Crc.{
  shift, shifts, entry, add_bytes, crc32, crc64, crc32_polynomial, crc64_polynomial,
}

-- The register after the bytes, each of which is shifted through it bit by bit.
unfoldable pub add_bits : ℕ → ℕ → List ℕ → ℕ
add_bits polynomial crc [] = crc
add_bits polynomial crc (byte ∷ bytes) =
    add_bits polynomial (shifts polynomial 8 (bit_xor crc byte)) bytes

-- Two pairs are regrouped.
swap : (a b c d : ℕ) → bit_xor (bit_xor a b) (bit_xor c d) ≡ bit_xor (bit_xor a c) (bit_xor b d)
swap a b c d =
    bit_xor_assoc a b (bit_xor c d)
    ∙ ap (λ t. bit_xor a t)
        (sym (bit_xor_assoc b c d) ∙ ap (λ t. bit_xor t d) (bit_xor_comm b c) ∙ bit_xor_assoc c b d)
    ∙ sym (bit_xor_assoc a c (bit_xor b d))

add_pow : (n y r : ℕ) → r < 2 ^ n → bit_xor (y * 2 ^ n) r ≡ y * 2 ^ n + r
add_pow zero y r h = let z : r ≡ 0 = omega arith in rw z (bit_xor-zero (y * 1) ∙ omega arith)
add_pow (suc n) y r h =
    let power = pow-suc 2 n in
    let double : y * 2 ^ suc n ≡ y * 2 ^ n * 2 = rw power (omega arith) in
    let half : y * 2 ^ n * 2 / 2 ≡ y * 2 ^ n = omega arith in
    let even : y * 2 ^ n * 2 % 2 ≡ 0 = omega arith in
    let rest = add_pow n y (r / 2) (omega arith) in
    rw double (bit_xor_step (y * 2 ^ n * 2) r ∙ rw (half, even, rest) (omega arith))

module _ (p : ℕ) where
  -- What a set lowest bit adds.
  carry : ℕ → ℕ
  carry bit = if bit == 1 then p else 0

  shift-carry : (a : ℕ) → shift p a ≡ bit_xor (a / 2) (carry (a % 2))
  unfolding shift carry
  shift-carry a = elim (Bool-cases (a % 2 == 1)) [
    | inl e ↦ rw e refl
    | inr e ↦ rw e (sym (bit_xor-zero (a / 2)))
  ]

  carry-differ : (a b : ℕ) → a < 2 → b < 2 → carry (differ a b) ≡ bit_xor (carry a) (carry b)
  unfolding carry
  carry-differ zero b h k = sym (zero-bit_xor (carry b))
  carry-differ (suc zero) zero h k = sym (bit_xor-zero p)
  carry-differ (suc zero) (suc zero) h k = sym (bit_xor_self p)
  carry-differ (suc zero) (suc (suc b)) h k = absurd (omega arith)
  carry-differ (suc (suc a)) b h k = absurd (omega arith)

  carry-bit_xor : (a b : ℕ) → carry (bit_xor a b % 2) ≡ bit_xor (carry (a % 2)) (carry (b % 2))
  carry-bit_xor a b =
      ap carry (bit_xor-mod a b) ∙ carry-differ (a % 2) (b % 2) (omega arith) (omega arith)

  shift-bit_xor : (a b : ℕ) → shift p (bit_xor a b) ≡ bit_xor (shift p a) (shift p b)
  shift-bit_xor a b =
      rw
        (
          shift-carry (bit_xor a b),
          shift-carry a,
          shift-carry b,
          bit_xor-half a b,
          carry-bit_xor a b,
        )
        (swap (a / 2) (b / 2) (carry (a % 2)) (carry (b % 2)))

  shifts-bit_xor : (n a b : ℕ) → shifts p n (bit_xor a b) ≡ bit_xor (shifts p n a) (shifts p n b)
  unfolding shifts
  shifts-bit_xor zero a b = refl
  shifts-bit_xor (suc n) a b =
      ap (shifts p n) (shift-bit_xor a b) ∙ shifts-bit_xor n (shift p a) (shift p b)

  -- Bits above the ones that leave the register are only moved.
  shifts-pow : (n y : ℕ) → shifts p n (y * 2 ^ n) ≡ y
  unfolding shifts shift
  shifts-pow zero y = omega arith
  shifts-pow (suc n) y =
      let power = pow-suc 2 n in
      let double : y * 2 ^ suc n ≡ y * 2 ^ n * 2 = grind arith in
      ap (λ t. shifts p (suc n) t) double
      ∙ ap (shifts p n) (shift_even (y * 2 ^ n))
      ∙ shifts-pow n y
    where
      shift_even : (z : ℕ) → shift p (z * 2) ≡ z
      shift_even z =
          let even : (z * 2 % 2 == 1) ≡ false = ground arith in rw (shift, even) (omega arith)

  -- Eight rounds at once: what the table does.
  shifts-table : (x : ℕ) → shifts p 8 x ≡ bit_xor (x / 256) (entry p (x % 256))
  shifts-table x =
      let whole : x / 256 * 256 + x % 256 ≡ x = omega arith in
      ap (shifts p 8) (sym whole ∙ sym (add_pow 8 (x / 256) (x % 256) (omega arith)))
      ∙ shifts-bit_xor 8 (x / 256 * 256) (x % 256)
      ∙ ap (λ t. bit_xor t (shifts p 8 (x % 256))) (shifts-pow 8 (x / 256))

  -- A byte changes no bit above its own.
  high_bits : (crc byte : ℕ) → byte < 256 → bit_xor crc byte / 256 ≡ crc / 256
  high_bits crc byte h =
      let none_left : byte / 2 ^ 8 ≡ 0 = omega arith in
      high 8 crc byte ∙ rw none_left (bit_xor-zero (crc / 2 ^ 8))
    where
      high : (n a b : ℕ) → bit_xor a b / 2 ^ n ≡ bit_xor (a / 2 ^ n) (b / 2 ^ n)
      high zero a b = rw (one a, one b) (one (bit_xor a b))
        where
          one : (t : ℕ) → t / 2 ^ 0 ≡ t
          one t = omega arith
      high (suc n) a b =
          halved n (bit_xor a b)
          ∙ ap (λ t. t / 2 ^ n) (bit_xor-half a b)
          ∙ high n (a / 2) (b / 2)
          ∙ rw (halved n a, halved n b) refl
        where
          halved : (n t : ℕ) → t / 2 ^ suc n ≡ t / 2 / 2 ^ n
          halved n t = ap (λ k. t / k) (pow-succ' 2 n) ∙ sym (div-div-eq-div-mul t 2 (2 ^ n))

  add_bytes-add_bits :
      (crc : ℕ) (bytes : List ℕ)
      → All (λ byte. byte < 256) bytes
      → add_bytes (entry p) crc bytes ≡ add_bits p crc bytes
  unfolding add_bytes add_bits
  add_bytes-add_bits crc [] h = refl
  add_bytes-add_bits crc (byte ∷ bytes) h =
      let same : bit_xor (crc / 256) (entry p (bit_xor crc byte % 256))
          ≡ shifts p 8 (bit_xor crc byte) =
        ap (λ t. bit_xor t (entry p (bit_xor crc byte % 256))) (sym (high_bits crc byte h.0))
        ∙ sym (shifts-table (bit_xor crc byte)) in
      ap (λ t. add_bytes (entry p) t bytes) same
      ∙ add_bytes-add_bits (shifts p 8 (bit_xor crc byte)) bytes h.1

-- For a list of bytes, crc32 and crc64 are what the bits of the bytes, shifted one by one through
-- a register of ones with the polynomial of IEEE 802.3 or of CRC-64 / XZ, leave in it, inverted.
pub crcs-add_bits :
    (bytes : List ℕ)
    → All (λ byte. byte < 256) bytes
    → (crc32 bytes ≡ bit_xor (add_bits 0xEDB8_8320 0xFFFF_FFFF bytes) 0xFFFF_FFFF)
      × (crc64 bytes
          ≡ bit_xor
              (add_bits 0xC96C_5795_D787_0F42 0xFFFF_FFFF_FFFF_FFFF bytes)
              0xFFFF_FFFF_FFFF_FFFF)
unfolding crc32 crc64
crcs-add_bits bytes h = (
  ap (λ t. bit_xor t 0xFFFF_FFFF) (add_bytes-add_bits crc32_polynomial 0xFFFF_FFFF bytes h),
  ap (λ t. bit_xor t 0xFFFF_FFFF_FFFF_FFFF)
      (add_bytes-add_bits crc64_polynomial 0xFFFF_FFFF_FFFF_FFFF bytes h),
)
