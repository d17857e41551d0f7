-- ===== src/Base/Bits.antt =====
-- Exclusive or with a power of two at a multiple of it, from the digit recursion that the native
-- operation stands for: it goes to the neighbouring multiple.
use Prim.Native.Nat.{
  ℕ, zero, suc, ◌+◌, ◌-◌, ◌*◌, ◌/◌, ◌%◌, ◌^◌, ◌≤◌, bit_xor, digits, differ, bit_xor-bitwise,
}
use mathlib.Core.Path.{◌≡◌, refl, ◌∙◌}
use native.Mathlib.Omega.{arith}
use native.Mathlib.Nat.{pow-suc}
use maram_os.Base.Tests.{◌==◌, if◌then◌else◌}

abbrev xor_digits : ℕ → ℕ → ℕ → ℕ
xor_digits n a b = digits (λ b. b) differ n a b

-- More rounds than digits change nothing.
xor_digits_rounds : (n m a b : ℕ) → a ≤ n → a ≤ m → xor_digits n a b ≡ xor_digits m a b
xor_digits_rounds n m zero b p q = xor_digits_zero n b ∙ xor_digits_zero' m b
  where
    xor_digits_zero : (n b : ℕ) → xor_digits n 0 b ≡ b
    xor_digits_zero zero b = refl
    xor_digits_zero (suc n) b = refl

    xor_digits_zero' : (n b : ℕ) → b ≡ xor_digits n 0 b
    xor_digits_zero' zero b = refl
    xor_digits_zero' (suc n) b = refl
xor_digits_rounds zero m (suc a) b p q = absurd (omega arith)
xor_digits_rounds (suc n) zero (suc a) b p q = absurd (omega arith)
xor_digits_rounds (suc n) (suc m) (suc a) b p q =
    omega (arith, xor_digits_rounds n m (suc a / 2) (b / 2) (omega arith) (omega arith))

pub zero-bit_xor : (b : ℕ) → bit_xor 0 b ≡ b
zero-bit_xor b = bit_xor-bitwise 0 b

pub bit_xor_step : (a b : ℕ) → bit_xor a b ≡ bit_xor (a / 2) (b / 2) * 2 + differ (a % 2) (b % 2)
bit_xor_step zero b = omega (arith, zero-bit_xor b, zero-bit_xor (b / 2))
bit_xor_step (suc a) b = omega (
  arith,
  bit_xor-bitwise (suc a) b,
  bit_xor-bitwise (suc a / 2) (b / 2),
  xor_digits_rounds a (suc a / 2) (suc a / 2) (b / 2) (omega arith) (omega arith),
)

differ-zero : (a : ℕ) → differ a 0 ≡ a
differ-zero zero = refl
differ-zero (suc a) = refl

bit_xor-zero_below : (n a : ℕ) → a ≤ n → bit_xor a 0 ≡ a
bit_xor-zero_below n zero h = refl
bit_xor-zero_below zero (suc a) h = absurd (omega arith)
bit_xor-zero_below (suc n) (suc a) h = omega (
  arith,
  bit_xor_step (suc a) 0,
  differ-zero (suc a % 2),
  bit_xor-zero_below n (suc a / 2) (omega arith),
)

pub bit_xor-zero : (a : ℕ) → bit_xor a 0 ≡ a
bit_xor-zero a = bit_xor-zero_below a a (omega arith)

differ-one : (a : ℕ) → a ≤ 1 → differ a 1 ≡ 1 - a
differ-one zero h = refl
differ-one (suc zero) h = refl
differ-one (suc (suc a)) h = absurd (omega arith)

-- The multiple on the other side of an even multiple's pair.
abbrev pub pair_of : ℕ → ℕ
pair_of q = if q % 2 == 0 then q + 1 else q - 1

pub bit_xor-pow : (k q : ℕ) → bit_xor (q * 2 ^ k) (2 ^ k) ≡ pair_of q * 2 ^ k
bit_xor-pow zero q =
    ground (arith, bit_xor_step (q * 1) 1, bit_xor-zero (q * 1 / 2), differ-one (q * 1 % 2))
bit_xor-pow (suc k) q = rw (pow-suc 2 k) (double (2 ^ k) (bit_xor-pow k q))
  where
    regroup : (a p : ℕ) → a * p * 2 + 0 ≡ a * (p * 2)
    regroup a p = omega arith

    double :
        (p : ℕ)
        → bit_xor (q * p) p ≡ pair_of q * p
        → bit_xor (q * (p * 2)) (p * 2) ≡ pair_of q * (p * 2)
    double p ih =
        let half : q * (p * 2) / 2 ≡ q * p = omega arith in
        let half' : p * 2 / 2 ≡ p = omega arith in
        let even : q * (p * 2) % 2 ≡ 0 = omega arith in
        let even' : p * 2 % 2 ≡ 0 = omega arith in
        bit_xor_step (q * (p * 2)) (p * 2)
        ∙ rw (half, half', even, even', ih) (regroup (pair_of q) p)
