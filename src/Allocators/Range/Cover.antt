-- ===== src/Allocators/Range/Cover.antt =====
-- Which addresses a free list covers, and how often: the abstract view under which the lists of
-- kernel/src/allocators/range.rs are compared.
use maram_os.Base.{
  ℕ, ◌+◌, ◌%◌, ◌≤◌, ◌<◌, ◌≡◌, refl, ◌∙◌, true, ◌&&◌, List, [], ◌∷◌, ◌++◌, arith, ltb, leb, ◌==◌,
  if◌then◌else◌, Bool-cases, inl, inr, All, u64_mod, add64,
}
use maram_os.Allocators.Range.{
  Range, range, end_of, insert_by_start, sort_by_start, merge_adjacent, merge_all, coalesce,
}

-- `1` if `x` lies in `r`, else `0`.
abbrev pub covers : ℕ → Range → ℕ
covers x r = if leb r.start x && ltb x (r.start + r.length) then 1 else 0

-- How many ranges of the list `x` lies in.
abbrev pub cover : ℕ → List Range → ℕ
cover x [] = 0
cover x (r ∷ rest) = covers x r + cover x rest

-- A range that ends at `limit` or before.
abbrev pub IsBelow : ℕ → Range → Type 0
IsBelow limit r = r.start + r.length ≤ limit

pub cover-append : (x : ℕ) (a b : List Range) → cover x (a ++ b) ≡ cover x a + cover x b
cover-append x [] b = omega arith
cover-append x (r ∷ a) b = omega (arith, cover-append x a b)

cover-insert :
    (x : ℕ) (r : Range) (l : List Range) → cover x (insert_by_start r l) ≡ covers x r + cover x l
unfolding insert_by_start
cover-insert x r [] = refl
cover-insert x r (s ∷ l) = elim (Bool-cases (leb r.start s.start)) [
  | inl e ↦ rw e refl
  | inr e ↦ rw e (omega (arith, cover-insert x r l))
]

cover-sort : (x : ℕ) (l : List Range) → cover x (sort_by_start l) ≡ cover x l
unfolding sort_by_start
cover-sort x [] = refl
cover-sort x (r ∷ l) = omega (arith, cover-insert x r (sort_by_start l), cover-sort x l)

module _ (limit : ℕ) (small : limit < u64_mod) where
  insert-IsBelow :
      (r : Range) (l : List Range)
      → IsBelow limit r
      → All (IsBelow limit) l
      → All (IsBelow limit) (insert_by_start r l)
  unfolding insert_by_start
  insert-IsBelow r [] hr hl = (hr, tt)
  insert-IsBelow r (s ∷ l) hr hl = elim (Bool-cases (leb r.start s.start)) [
    | inl e ↦ rw e (hr, hl)
    | inr e ↦ rw e (hl.0, insert-IsBelow r l hr hl.1)
  ]

  pub sort-IsBelow :
      (l : List Range) → All (IsBelow limit) l → All (IsBelow limit) (sort_by_start l)
  unfolding sort_by_start
  sort-IsBelow [] h = tt
  sort-IsBelow (r ∷ l) h = insert-IsBelow r (sort_by_start l) h.0 (sort-IsBelow l h.1)

  joined :
      (c n : Range)
      → IsBelow limit c
      → IsBelow limit n
      → (end_of c == n.start) ≡ true
      → (x : ℕ)
      → (covers x (range c.start ((c.length + n.length) % u64_mod)) ≡ covers x c + covers x n)
        × IsBelow limit (range c.start ((c.length + n.length) % u64_mod))
  joined c n hc hn e x = ground arith

  merge_lem :
      (x : ℕ) (c : Range) (l : List Range)
      → IsBelow limit c
      → All (IsBelow limit) l
      → (cover x (merge_adjacent c l) ≡ covers x c + cover x l)
        × All (IsBelow limit) (merge_adjacent c l)
  unfolding merge_adjacent
  merge_lem x c [] hc hl = (omega arith, (hc, tt))
  merge_lem x c (n ∷ l) hc hl = elim (Bool-cases (end_of c == n.start)) [
    | inl e ↦
        let (j, jb) = joined c n hc hl.0 e x in
        let (m, mb) = merge_lem x (range c.start (add64 c.length n.length)) l jb hl.1 in
        rw (e, merge_adjacent) (omega arith, mb)
    | inr e ↦
        let (m, mb) = merge_lem x n l hl.0 hl.1 in rw (e, merge_adjacent) (omega arith, (hc, mb))
  ]

  merge_all_lem :
      (x : ℕ) (l : List Range)
      → All (IsBelow limit) l
      → (cover x (merge_all l) ≡ cover x l) × All (IsBelow limit) (merge_all l)
  unfolding merge_all
  merge_all_lem x [] h = (refl, tt)
  merge_all_lem x (r ∷ l) h = merge_lem x r l h.0 h.1

  -- `coalesce` changes which ranges there are, not which addresses they cover.
  pub cover-coalesce :
      (x : ℕ) (l : List Range) → All (IsBelow limit) l → cover x (coalesce l) ≡ cover x l
  unfolding coalesce
  cover-coalesce x l h = (merge_all_lem x _ (sort-IsBelow l h)).0 ∙ cover-sort x l

  pub coalesce-IsBelow : (l : List Range) → All (IsBelow limit) l → All (IsBelow limit) (coalesce l)
  unfolding coalesce
  coalesce-IsBelow l h = (merge_all_lem 0 _ (sort-IsBelow l h)).1
