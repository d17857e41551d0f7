-- ===== src/Allocators/Buddy/Split.antt =====
-- The splitting loop of `alloc` of kernel/src/allocators/buddy.rs.
use maram_os.Base.{
  ℕ, zero, suc, ◌+◌, ◌*◌, ◌≤◌, ◌<◌, ◌≡◌, ◌≢◌, refl, List, ◌∷◌, arith, ap, ◌∙◌, update, u64_mod,
  add64, ◌==◌, false, Bool-cases, inl, inr,
}
use maram_os.Allocators.Buddy.{Buddy, block_size, split_down}
use maram_os.Allocators.Buddy.Cover.{
  covers, cover, cover-cons, IsMultiple, block_size-suc, block_size_pos,
}
use maram_os.Allocators.Buddy.Valid.{Valid, IsBlock, push-Valid, push-memory}

-- The two halves of a block of `s * 2` bytes.
halves : (x at s : ℕ) → covers x at (s * 2) ≡ covers x at s + covers x (at + s) s
halves x at s = ground arith

off : (y at s : ℕ) → 0 < s → covers y at (s * 2) ≡ 0 → (y == at + s) ≡ false
off y at s p z = elim (Bool-cases (y == at + s)) [
  | inl e ↦ let same : y ≡ at + s = ground arith in absurd (ground arith)
  | inr e ↦ e
]

module _ (min_order order_count limit : ℕ) (small : limit < u64_mod) where
  abbrev pub bs : ℕ → ℕ
  bs = block_size min_order

  -- What a split leaves: the lower end of the block is in hand, the rest is free.
  pub record Split (at order whole : ℕ) (lists : ℕ → List ℕ) (b b' : Buddy) (lists' : ℕ → List ℕ)
      : Type 0 where
    pub valid : Valid min_order order_count limit b' lists'
    pub aligned : IsMultiple at (bs order)
    pub below : at + bs order ≤ limit
    pub cover_eq :
        (x : ℕ)
        → cover min_order order_count x lists' + covers x at (bs order)
          ≡ cover min_order order_count x lists + covers x at whole
    pub same_memory : (y : ℕ) → covers y at whole ≡ 0 → b'.memory y ≡ b.memory y

  double : (order k : ℕ) → bs (order + suc k) ≡ bs (order + k) * 2
  double order k = ap (λ t. bs t) regroup ∙ block_size-suc min_order (order + k)
    where
      regroup : order + suc k ≡ order + k + 1
      regroup = omega arith

  upper :
      (lists : ℕ → List ℕ) (at o s q : ℕ)
      → o < order_count
      → bs o ≡ s
      → at ≡ q * (s * 2)
      → at ≢ 0
      → at + s * 2 ≤ limit
      → ((x : ℕ) → covers x at (s * 2) + cover min_order order_count x lists ≤ 1)
      → IsBlock min_order order_count limit lists (at + s) o
  upper lists at o s q lt e mult nz low dis = record {
    order_lt = lt;
    ne_zero = omega arith;
    aligned = (q * 2 + 1, rw e (omega arith));
    below = rw e (omega arith);
    disjoint = λ x. rw e (omega (arith, halves x at s, dis x));
  }

  lower :
      (lists : ℕ → List ℕ) (at o s q : ℕ)
      → o < order_count
      → bs o ≡ s
      → at ≡ q * (s * 2)
      → at ≢ 0
      → at + s * 2 ≤ limit
      → ((x : ℕ) → covers x at (s * 2) + cover min_order order_count x lists ≤ 1)
      → IsBlock min_order order_count limit (update lists o ((at + s) ∷ lists o)) at o
  lower lists at o s q lt e mult nz low dis = record {
    order_lt = lt;
    ne_zero = nz;
    aligned = (q * 2, rw e (omega arith));
    below = rw e (omega arith);
    disjoint = λ x. rw e (
        omega (
          arith,
          cover-cons min_order order_count o x (at + s) s lists lt e,
          halves x at s,
          dis x,
        ));
  }

  pub split_down-Split :
      (rounds : ℕ) {b : Buddy} {lists : ℕ → List ℕ} (at order : ℕ)
      → Valid min_order order_count limit b lists
      → IsBlock min_order order_count limit lists at (order + rounds)
      → (lists' : ℕ → List ℕ) × Split at order
          (bs (order + rounds))
          lists
          b
          (split_down min_order order_count rounds b at order)
          lists'
  unfolding split_down
  split_down-Split zero {b} {lists} at order v k =
      let same : order + 0 ≡ order = omega arith in
      (
        lists,
        record {
          valid = v;
          aligned = rw same at k.aligned;
          below = rw same at k.below;
          cover_eq = λ x. rw same;
          same_memory = λ y z. refl;
        },
      )
  split_down-Split (suc rounds) {b} {lists} at order v k =
      let d = double order rounds in
      let s = bs (order + rounds) in
      let (q, mult) = k.aligned in
      let m : at ≡ q * (s * 2) = mult ∙ ap (λ t. q * t) d in
      let lt : order + rounds < order_count = omega (arith, k.order_lt) in
      let low : at + s * 2 ≤ limit = rw d at k.below in
      let dis = λ (x : ℕ). (rw d at (k.disjoint x)) in
      let sum : add64 at s ≡ at + s = omega arith in
      let up = upper lists at (order + rounds) s q lt refl m k.ne_zero low dis in
      let down = lower lists at (order + rounds) s q lt refl m k.ne_zero low dis in
      let (lists', r) =
        split_down-Split rounds at order (push-Valid min_order order_count limit v up) down in
      rw sum (
        lists',
        record {
          valid = r.valid;
          aligned = r.aligned;
          below = r.below;
          cover_eq = λ x. rw d (
              omega (
                arith,
                r.cover_eq x,
                halves x at s,
                cover-cons min_order order_count (order + rounds) x (at + s) s lists lt refl,
              ));
          same_memory = λ y z.
              let z' : covers y at (s * 2) ≡ 0 = rw d at z in
              r.same_memory y (omega (arith, halves y at s, z'))
              ∙ push-memory b (at + s) (order + rounds) y
                  (off y at s (block_size_pos min_order (order + rounds)) z');
        },
      )
