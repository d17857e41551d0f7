-- ===== src/Allocators/Slab/Chain.antt =====
-- Free lists of kernel/src/allocators/slab.rs: the links and counts in memory spell a list of
-- ranges.
use maram_os.Base.{ℕ, ◌*◌, ◌≤◌, ◌<◌, ◌≡◌, ◌≢◌, List, [], ◌∷◌, arith, ◌∙◌}
use maram_os.Allocators.Buddy.{Cell}
use maram_os.Allocators.Slab.Ranges.{Range, cover, Within}

abbrev pub Chain : (ℕ → Cell) → ℕ → List Range → Type 0
Chain m p [] = p ≡ 0
Chain m p ((x, n) ∷ xs) = (p ≡ x) × (x ≢ 0) × ((m x).count ≡ n) × Chain m (m x).next xs

module _ (block_size : ℕ) (pos : 0 < block_size) where
  pub cover_head : (x n : ℕ) (xs : List Range) → 1 ≤ n → 1 ≤ cover block_size x ((x, n) ∷ xs)
  cover_head x n xs h = let p : 1 ≤ n * block_size = grind arith in ground arith

  -- A chain survives every write outside of its ranges.
  pub frame :
      (m m' : ℕ → Cell) (base size p : ℕ) (xs : List Range)
      → Within block_size base size xs
      → Chain m p xs
      → ((y : ℕ)
          → 1 ≤ cover block_size y xs
          → ((m' y).next ≡ (m y).next) × ((m' y).count ≡ (m y).count))
      → Chain m' p xs
  frame m m' base size p [] w c same = c
  frame m m' base size p ((x, n) ∷ xs) w (e, nz, cnt, c) same =
      let (s_next, s_count) = same x (cover_head x n xs w.0) in
      (
        e,
        nz,
        s_count ∙ cnt,
        rw s_next (frame m m' base size (m x).next xs w.3 c (λ y h. same y (omega arith))),
      )
