-- ===== src/Allocators/Slab/Whole.antt =====
-- A block of kernel/src/allocators/slab.rs whose free ranges are as long as the block: every byte
-- of it is free.
use maram_os.Base.{
  ℕ, zero, suc, ◌+◌, ◌-◌, ◌*◌, ◌≤◌, ◌<◌, ◌≡◌, List, [], ◌∷◌, arith, ◌==◌, Bool-cases, inl, inr, ◌∙◌,
}
use maram_os.Allocators.Buddy.Cover.{covers}
use maram_os.Allocators.Slab.Ranges.{Range, cover, total, Within}

-- The sum of `f` over the `n` addresses from `base` on.
abbrev sum : (ℕ → ℕ) → ℕ → ℕ → ℕ
sum f base zero = 0
sum f base (suc n) = sum f base n + f (base + n)

sum_add :
    (f g h : ℕ → ℕ) (base n : ℕ)
    → ((y : ℕ) → f y ≡ g y + h y)
    → sum f base n ≡ sum g base n + sum h base n
sum_add f g h base zero same = omega arith
sum_add f g h base (suc n) same = omega (arith, sum_add f g h base n same, same (base + n))

sum_zero : (base n : ℕ) → sum (λ y. 0) base n ≡ 0
sum_zero base zero = omega arith
sum_zero base (suc n) = omega (arith, sum_zero base n)

-- Up to `base + n`, a range that starts behind `base` has what lies before `base + n`.
sum-covers :
    (base x len n : ℕ)
    → base ≤ x
    → sum (λ y. covers y x len) base n ≡ base + n - x - (base + n - (x + len))
sum-covers base x len zero le = omega arith
sum-covers base x len (suc n) le =
    let ih = sum-covers base x len n le in
    let step : base + n - x - (base + n - (x + len)) + covers (base + n) x len
        ≡ base + suc n - x - (base + suc n - (x + len)) =
      ground arith in
    omega (arith, ih, step)

-- With at most 1 at every address, a sum as large as the number of addresses has 1 everywhere.
sum_le : (f : ℕ → ℕ) (base n : ℕ) → ((y : ℕ) → f y ≤ 1) → sum f base n ≤ n
sum_le f base zero h = omega arith
sum_le f base (suc n) h = omega (arith, sum_le f base n h, h (base + n))

sum_full :
    (f : ℕ → ℕ) (base n k : ℕ) → ((y : ℕ) → f y ≤ 1) → sum f base n ≡ n → k < n → 1 ≤ f (base + k)
sum_full f base zero k h full lt = absurd (omega arith)
sum_full f base (suc n) k h full lt = elim (Bool-cases (k == n)) [
  | inl e ↦
      let same : k ≡ n = ground arith in
      rw same (omega (arith, sum_le f base n h, h (base + n), full))
  | inr e ↦
      sum_full f base n k h (omega (arith, sum_le f base n h, h (base + n), full)) (ground arith)
]

module _ (block_size : ℕ) where
  sum-cover :
      (base size : ℕ) (xs : List Range)
      → Within block_size base size xs
      → sum (λ y. cover block_size y xs) base size ≡ total xs * block_size
  sum-cover base size [] w = sum_zero base size ∙ omega arith
  sum-cover base size ((x, n) ∷ xs) (one, lo, hi, w) =
      let split =
        sum_add (λ y. cover block_size y ((x, n) ∷ xs)) (λ y. covers y x (n * block_size))
          (λ y. cover block_size y xs) base size (λ y. omega arith) in
      let front = sum-covers base x (n * block_size) size lo in
      let rest = sum-cover base size xs w in
      let parts : (n + total xs) * block_size ≡ n * block_size + total xs * block_size =
        grind arith in
      omega (arith, split, front, rest, parts, hi)

  -- Ranges that do not overlap and are as long as the block leave no byte of it out.
  pub cover-whole :
      (base size : ℕ) (xs : List Range)
      → Within block_size base size xs
      → ((y : ℕ) → cover block_size y xs ≤ 1)
      → total xs * block_size ≡ size
      → (y : ℕ) → base ≤ y
      → y < base + size
      → 1 ≤ cover block_size y xs
  cover-whole base size xs w single whole y lo hi =
      let full = sum-cover base size xs w ∙ whole in
      let at : base + (y - base) ≡ y = omega arith in
      rw at at
        (sum_full (λ y. cover block_size y xs) base size (y - base) single full (omega arith))
