-- ===== src/Allocators/Slab/Ranges.antt =====
-- The free ranges of one block of kernel/src/allocators/slab.rs as a list, without addresses of
-- links: what `alloc_in_block` promises is a first fit on that list.
use maram_os.Base.{
  ℕ, ◌+◌, ◌-◌, ◌*◌, ◌≤◌, ◌<◌, ◌≡◌, Option, some, none, List, [], All, length, ◌∷◌, arith, leb, ◌==◌,
  if◌then◌else◌, Bool-cases, inl, inr, Option-cases,
}
use maram_os.Allocators.Buddy.Cover.{covers}

-- The address of a range and its number of blocks.
abbrev pub Range : Type 0
Range = ℕ × ℕ

abbrev pub total : List Range → ℕ
total [] = 0
total ((x, n) ∷ xs) = n + total xs

module _ (block_size : ℕ) where
  -- How many of the ranges the address `y` lies in.
  abbrev pub cover : ℕ → List Range → ℕ
  cover y [] = 0
  cover y ((x, n) ∷ xs) = covers y x (n * block_size) + cover y xs

  -- The ranges are not empty and lie in the `size` bytes from `base` on.
  abbrev pub Within : ℕ → ℕ → List Range → Type 0
  Within base size [] = Unit
  Within base size ((x, n) ∷ xs) =
      (1 ≤ n) × (base ≤ x) × (x + n * block_size ≤ base + size) × Within base size xs

  module _ (count : ℕ) where
    abbrev pub put_back : Range → Option (ℕ × List Range) → Option (ℕ × List Range)
    put_back r none = none
    put_back r (some (a, xs)) = some (a, r ∷ xs)

    abbrev pub cut_front : ℕ → ℕ → List Range → List Range
    cut_front x n xs = if n == count then xs else (x + count * block_size, n - count) ∷ xs

    -- The first range that is large enough gives its front.
    unfoldable pub first_fit : List Range → Option (ℕ × List Range)
    first_fit [] = none
    first_fit ((x, n) ∷ xs) =
        let rest = first_fit xs in
        if leb count n then some (x, cut_front x n xs) else put_back (x, n) rest

    module _ (base size : ℕ) (pos : 1 ≤ count) where
      -- What is left of the ranges when `count` blocks at `a` are taken.
      pub record Fits (xs : List Range) (a : ℕ) (xs' : List Range) : Type 0 where
        pub within : Within base size xs'
        pub total_eq : total xs' + count ≡ total xs
        pub cover_eq : (y : ℕ) → cover y xs' + covers y a (count * block_size) ≡ cover y xs
        pub base_le : base ≤ a
        pub end_le : a + count * block_size ≤ base + size

      split_size :
          (n : ℕ) → count ≤ n → count * block_size + (n - count) * block_size ≡ n * block_size
      split_size n le = let fill : count + (n - count) ≡ n = omega arith in grind arith

      cut-Fits :
          (x n : ℕ) (xs : List Range)
          → Within base size ((x, n) ∷ xs)
          → count ≤ n
          → Fits ((x, n) ∷ xs) x (cut_front x n xs)
      cut-Fits x n xs (pos_n, lo, hi, w) le = elim (Bool-cases (n == count)) [
        | inl e ↦
            let same : n ≡ count = ground arith in
            rw (e, same)
              (record {
                within = w;
                total_eq = omega arith;
                cover_eq = λ y. omega arith;
                base_le = lo;
                end_le = rw same at hi;
              })
        | inr e ↦
            let sum = split_size n le in
            rw e (record {
              within = (ground arith, omega arith, omega arith, w);
              total_eq = omega arith;
              cover_eq = λ y. ground arith;
              base_le = lo;
              end_le = omega arith;
            })
      ]

      -- A first fit takes exactly the range that it returns.
      pub first_fit-Fits :
          (xs : List Range) {a : ℕ} {xs' : List Range}
          → Within base size xs
          → first_fit xs ≡ some (a, xs')
          → Fits xs a xs'
      unfolding first_fit
      first_fit-Fits [] w e = absurd (cc e)
      first_fit-Fits ((x, n) ∷ xs) {a} {xs'} w e = elim (Bool-cases (leb count n)) [
        | inl le ↦
            let q : some (x, cut_front x n xs) ≡ some (a, xs') = rw le at e in
            let ea : x ≡ a = cc q in
            let ex : cut_front x n xs ≡ xs' = cc q in
            rw (← ea, ← ex) (cut-Fits x n xs w (ground arith))
        | inr le ↦ elim (Option-cases (first_fit xs)) [
          | inl q ↦ absurd (cc (rw (le, q) at e))
          | inr ((b, ys), q) ↦
              let f = first_fit-Fits xs w.3 q in
              let k : some (b, (x, n) ∷ ys) ≡ some (a, xs') = rw (le, q) at e in
              let ea : b ≡ a = cc k in
              let ex : (x, n) ∷ ys ≡ xs' = cc k in
              rw (← ea, ← ex)
                (record {
                  within = (w.0, w.1, w.2, f.within);
                  total_eq = omega (arith, f.total_eq);
                  cover_eq = λ y. omega (arith, f.cover_eq y);
                  base_le = f.base_le;
                  end_le = f.end_le;
                })
        ]
      ]

    -- Without a fit every range is too small.
    pub first_fit-none :
        (xs : List Range) → first_fit xs ≡ none → All (λ (r : Range). r.1 < count) xs
    unfolding first_fit
    first_fit-none [] e = tt
    first_fit-none ((x, n) ∷ xs) e = elim (Bool-cases (leb count n)) [
      | inl le ↦ absurd (cc (rw le at e))
      | inr le ↦ elim (Option-cases (first_fit xs)) [
        | inl q ↦ (ground arith, first_fit-none xs q)
        | inr ((b, ys), q) ↦ absurd (cc (rw (le, q) at e))
      ]
    ]

  pub cover-end :
      (base size y : ℕ) (xs : List Range)
      → Within base size xs
      → 1 ≤ cover y xs
      → (base ≤ y) × (y < base + size)
  cover-end base size y [] w h = absurd (omega arith)
  cover-end base size y ((x, n) ∷ xs) (pos, lo, hi, w) h =
      ground (arith, cover-end base size y xs w)

  pub length-total : (base size : ℕ) (xs : List Range) → Within base size xs → length xs ≤ total xs
  length-total base size [] w = omega arith
  length-total base size ((x, n) ∷ xs) w = omega (arith, length-total base size xs w.3, w.0)
