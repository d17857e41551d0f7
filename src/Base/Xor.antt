-- ===== src/Base/Xor.antt =====
-- Laws of exclusive or.
use Prim.Native.Nat.{ℕ, zero, suc, ◌+◌, ◌/◌, ◌%◌, ◌≤◌, ◌<◌, bit_xor, differ}
use mathlib.Core.Path.{◌≡◌, refl, ◌∙◌}
use native.Mathlib.Omega.{arith}
use maram_os.Base.Bits.{bit_xor_step}

differ-lt : (a b : ℕ) → a < 2 → b < 2 → differ a b < 2
differ-lt zero b h k = k
differ-lt (suc zero) zero h k = omega arith
differ-lt (suc zero) (suc zero) h k = omega arith
differ-lt (suc zero) (suc (suc b)) h k = absurd (omega arith)
differ-lt (suc (suc a)) b h k = absurd (omega arith)

differ_comm : (a b : ℕ) → a < 2 → b < 2 → differ a b ≡ differ b a
differ_comm zero zero h k = refl
differ_comm zero (suc zero) h k = refl
differ_comm (suc zero) zero h k = refl
differ_comm (suc zero) (suc zero) h k = refl
differ_comm zero (suc (suc b)) h k = absurd (omega arith)
differ_comm (suc zero) (suc (suc b)) h k = absurd (omega arith)
differ_comm (suc (suc a)) b h k = absurd (omega arith)

differ_assoc : (a b c : ℕ) → a < 2 → b < 2 → c < 2 → differ (differ a b) c ≡ differ a (differ b c)
differ_assoc zero b c h k l = refl
differ_assoc (suc zero) zero c h k l = refl
differ_assoc (suc zero) (suc zero) zero h k l = refl
differ_assoc (suc zero) (suc zero) (suc zero) h k l = refl
differ_assoc (suc zero) (suc zero) (suc (suc c)) h k l = absurd (omega arith)
differ_assoc (suc zero) (suc (suc b)) c h k l = absurd (omega arith)
differ_assoc (suc (suc a)) b c h k l = absurd (omega arith)

differ_self : (a : ℕ) → differ a a ≡ 0
differ_self zero = refl
differ_self (suc a) = differ_self a

pub bit_xor-half : (a b : ℕ) → bit_xor a b / 2 ≡ bit_xor (a / 2) (b / 2)
bit_xor-half a b =
    omega (arith, bit_xor_step a b, differ-lt (a % 2) (b % 2) (omega arith) (omega arith))

pub bit_xor-mod : (a b : ℕ) → bit_xor a b % 2 ≡ differ (a % 2) (b % 2)
bit_xor-mod a b =
    omega (arith, bit_xor_step a b, differ-lt (a % 2) (b % 2) (omega arith) (omega arith))

comm_below : (n a b : ℕ) → a ≤ n → b ≤ n → bit_xor a b ≡ bit_xor b a
comm_below zero a b h k =
    let za : a ≡ 0 = omega arith in let zb : b ≡ 0 = omega arith in rw (za, zb) refl
comm_below (suc n) a b h k = omega (
  arith,
  bit_xor_step a b,
  bit_xor_step b a,
  comm_below n (a / 2) (b / 2) (omega arith) (omega arith),
  differ_comm (a % 2) (b % 2) (omega arith) (omega arith),
)

pub bit_xor_comm : (a b : ℕ) → bit_xor a b ≡ bit_xor b a
bit_xor_comm a b = comm_below (a + b) a b (omega arith) (omega arith)

assoc_below :
    (n a b c : ℕ) → a ≤ n → b ≤ n → c ≤ n → bit_xor (bit_xor a b) c ≡ bit_xor a (bit_xor b c)
assoc_below zero a b c h k l =
    let za : a ≡ 0 = omega arith in
    let zb : b ≡ 0 = omega arith in let zc : c ≡ 0 = omega arith in rw (za, zb, zc) refl
assoc_below (suc n) a b c h k l =
    let rest = assoc_below n (a / 2) (b / 2) (c / 2) (omega arith) (omega arith) (omega arith) in
    let low = differ_assoc (a % 2) (b % 2) (c % 2) (omega arith) (omega arith) (omega arith) in
    bit_xor_step (bit_xor a b) c
    ∙ rw
        (
          bit_xor-half a b,
          bit_xor-mod a b,
          bit_xor_step a (bit_xor b c),
          bit_xor-half b c,
          bit_xor-mod b c,
        )
        (omega (arith, rest, low))

pub bit_xor_assoc : (a b c : ℕ) → bit_xor (bit_xor a b) c ≡ bit_xor a (bit_xor b c)
bit_xor_assoc a b c = assoc_below (a + b + c) a b c (omega arith) (omega arith) (omega arith)

self_below : (n a : ℕ) → a ≤ n → bit_xor a a ≡ 0
self_below zero a h = let z : a ≡ 0 = omega arith in rw z refl
self_below (suc n) a h =
    omega (arith, bit_xor_step a a, self_below n (a / 2) (omega arith), differ_self (a % 2))

pub bit_xor_self : (a : ℕ) → bit_xor a a ≡ 0
bit_xor_self a = self_below a a (omega arith)
