-- ===== src/Allocators/Buddy/Cover.antt =====
-- Which addresses the free blocks of kernel/src/allocators/buddy.rs cover, and how often.
use native.Mathlib.Nat.{pow-suc, pow-le-pow_right}
use maram_os.Base.{
  ℕ, zero, suc, ◌+◌, ◌*◌, ◌^◌, ◌≤◌, ◌<◌, ◌≡◌, refl, true, ◌&&◌, List, [], ◌∷◌, arith, ltb, leb,
  ◌==◌, if◌then◌else◌, Bool-cases, inl, inr, ap, ◌∙◌, update,
}
use maram_os.Allocators.Buddy.{block_size}
use maram_os.Allocators.Buddy.Chain.{has, erase}

-- `1` if `x` lies in the `size` bytes from `a` on, else `0`.
abbrev pub covers : ℕ → ℕ → ℕ → ℕ
covers x a size = if leb a x && ltb x (a + size) then 1 else 0

abbrev pub cover_list : ℕ → ℕ → List ℕ → ℕ
cover_list x size [] = 0
cover_list x size (a ∷ l) = covers x a size + cover_list x size l

-- A multiple of `size`, with the factor.
abbrev pub IsMultiple : ℕ → ℕ → Type 0
IsMultiple a size = (q : ℕ) × (a ≡ q * size)

pub cover_list-erase :
    (x a size : ℕ) (l : List ℕ)
    → has a l ≡ true
    → cover_list x size (erase a l) + covers x a size ≡ cover_list x size l
cover_list-erase x a size [] h = cc
cover_list-erase x a size (b ∷ l) h = elim (Bool-cases (b == a)) [
  | inl e ↦ let same : b ≡ a = ground arith in rw e (rw same (omega arith))
  | inr e ↦
      let there : has a l ≡ true = ground arith in
      rw e (omega (arith, cover_list-erase x a size l there))
]

pub cover_list-has : (a size : ℕ) (l : List ℕ) → 0 < size → has a l ≡ true → 1 ≤ cover_list a size l
cover_list-has a size [] p h = cc
cover_list-has a size (b ∷ l) p h = ground (arith, cover_list-has a size l p)

module _ (min_order : ℕ) where
  -- How many free blocks of an order below `n` the address `x` lies in.
  unfoldable pub cover : ℕ → ℕ → (ℕ → List ℕ) → ℕ
  cover zero x lists = 0
  cover (suc n) x lists = cover n x lists + cover_list x (block_size min_order n) (lists n)

  pub block_size_pos : (o : ℕ) → 0 < block_size min_order o
  block_size_pos o =
      pow-le-pow_right {n = 2} (omega arith) {i = 0} {j = o + min_order} (omega arith)

  pub block_size-suc : (o : ℕ) → block_size min_order (o + 1) ≡ block_size min_order o * 2
  block_size-suc o = ap (λ t. 2 ^ t) regroup ∙ pow-suc 2 (o + min_order)
    where
      regroup : o + 1 + min_order ≡ suc (o + min_order)
      regroup = omega arith

  pub block_size-blocks : (o : ℕ) → 2 ^ o * 2 ^ min_order ≡ block_size min_order o
  block_size-blocks zero =
      let one : 2 ^ 0 * 2 ^ min_order ≡ 2 ^ min_order = omega arith in
      let empty : min_order ≡ 0 + min_order = omega arith in one ∙ ap (λ t. 2 ^ t) empty
  block_size-blocks (suc o) =
      let same : suc o ≡ o + 1 = omega arith in
      rw (pow-suc 2 o) (omega (arith, block_size-blocks o, rw (← same) at (block_size-suc o)))

  cover-update_above :
      (n o x : ℕ) (lists : ℕ → List ℕ) (l : List ℕ)
      → n ≤ o
      → cover n x (update lists o l) ≡ cover n x lists
  unfolding cover update
  cover-update_above zero o x lists l h = refl
  cover-update_above (suc n) o x lists l h = ground (arith, cover-update_above n o x lists l)

  -- Changing one list changes the cover by that list's share.
  pub cover-update :
      (n o x : ℕ) (lists : ℕ → List ℕ) (l : List ℕ)
      → o < n
      → cover n x (update lists o l) + cover_list x (block_size min_order o) (lists o)
        ≡ cover n x lists + cover_list x (block_size min_order o) l
  unfolding cover update
  cover-update zero o x lists l h = elim h [ ]
  cover-update (suc n) o x lists l h = elim (Bool-cases (n == o)) [
    | inl e ↦
        let same : n ≡ o = ground arith in
        rw e (rw same (ground (arith, cover-update_above o o x lists l)))
    | inr e ↦ rw e (omega (arith, cover-update n o x lists l (ground arith)))
  ]

  pub cover-has :
      (n o a : ℕ) (lists : ℕ → List ℕ) → o < n → has a (lists o) ≡ true → 1 ≤ cover n a lists
  unfolding cover
  cover-has zero o a lists h k = elim h [ ]
  cover-has (suc n) o a lists h k = elim (Bool-cases (n == o)) [
    | inl e ↦
        let same : n ≡ o = ground arith in
        rw same
          (ground (arith, cover_list-has a (block_size min_order o) (lists o) (block_size_pos o)))
    | inr e ↦ omega (arith, cover-has n o a lists (ground arith) k)
  ]

  -- A block more in one list.
  pub cover-cons :
      (n o x a s : ℕ) (lists : ℕ → List ℕ)
      → o < n
      → block_size min_order o ≡ s
      → cover n x (update lists o (a ∷ lists o)) ≡ cover n x lists + covers x a s
  cover-cons n o x a s lists h e =
      rw (← e) (omega (arith, cover-update n o x lists (a ∷ lists o) h))
