-- ===== src/Allocators/Buddy/Alloc.antt =====
-- `alloc` of kernel/src/allocators/buddy.rs: the block that it returns is aligned and is taken out
-- of the free memory exactly, whatever was split on the way.
use maram_os.Base.{
  ℕ, zero, suc, ◌+◌, ◌-◌, ◌≤◌, ◌<◌, ◌≡◌, ◌≢◌, refl, sym, subst, true, false, Option, some, none,
  List, [], arith, ltb, ◌==◌, Bool-cases, Option-cases, inl, inr, ◌∙◌, update, u64_mod,
}
use maram_os.Allocators.Buddy.{
  Buddy, pop, block_size, max_order, find_order, split_down, alloc_at, alloc,
}
use maram_os.Allocators.Buddy.Chain.{has, erase, Chain-nil}
use maram_os.Allocators.Buddy.Cover.{covers, cover, IsMultiple}
use maram_os.Allocators.Buddy.Valid.{Valid, IsBlock}
use maram_os.Allocators.Buddy.Split.{split_down-Split}
use maram_os.Allocators.Buddy.Unlink.{Without, pop-Without}

find_order-some :
    (rounds : ℕ) (b : Buddy) (min_order order_count from found : ℕ)
    → find_order min_order order_count rounds b from ≡ some found
    → (from ≤ found) × (found < from + rounds) × ((b.heads found == 0) ≡ false)
unfolding find_order
find_order-some zero b min_order order_count from found e = cc
find_order-some (suc rounds) b min_order order_count from found e =
    elim (Bool-cases (b.heads from == 0)) [
      | inl z ↦
          let (lo, hi, nz) =
            find_order-some rounds b min_order order_count (from + 1) found (rw z at e) in
          (omega arith, omega arith, nz)
      | inr z ↦
          let same : from ≡ found = cc (rw z at e) in rw (← same) (omega arith, omega arith, z)
    ]

find_order-none :
    (rounds : ℕ) (b : Buddy) (min_order order_count from : ℕ)
    → find_order min_order order_count rounds b from ≡ none
    → (o : ℕ) → from ≤ o
    → o < from + rounds
    → b.heads o ≡ 0
unfolding find_order
find_order-none zero b min_order order_count from e o lo hi = absurd (omega arith)
find_order-none (suc rounds) b min_order order_count from e o lo hi = ground (
  arith,
  λ (q : find_order min_order order_count rounds b (from + 1) ≡ none) (l : from + 1 ≤ o).
      find_order-none rounds b min_order order_count (from + 1) q o l (omega arith),
)

alloc_at-some :
    (min_order order_count order found at : ℕ) (p : Option ℕ × Buddy)
    → p.0 ≡ some at
    → alloc_at min_order order_count order found p
      ≡ (some at, split_down min_order order_count (found - order) p.1 at order)
unfolding alloc_at
alloc_at-some min_order order_count order found at (none, b) e = cc
alloc_at-some min_order order_count order found at (some a, b) e =
    let same : a ≡ at = cc in rw same refl

module _ (min_order order_count limit : ℕ) (small : limit < u64_mod) where
  -- What `alloc` promises of the block at `at`.
  pub record Allocated (at order : ℕ) (lists : ℕ → List ℕ) (b b' : Buddy) (lists' : ℕ → List ℕ)
      : Type 0 where
    pub valid : Valid min_order order_count limit b' lists'
    pub order_lt : order < order_count
    pub aligned : IsMultiple at (block_size min_order order)
    pub ne_zero : at ≢ 0
    pub below : at + block_size min_order order ≤ limit
    pub cover_eq :
        (x : ℕ)
        → cover min_order order_count x lists' + covers x at (block_size min_order order)
          ≡ cover min_order order_count x lists
    pub same_memory : (y : ℕ) → cover min_order order_count y lists ≡ 0 → b'.memory y ≡ b.memory y

  module _ {b : Buddy} {lists : ℕ → List ℕ} (v : Valid min_order order_count limit b lists) where
    popped-IsBlock :
        (found : ℕ) (lists' : ℕ → List ℕ) (b' : Buddy)
        → found < order_count
        → (b.heads found == 0) ≡ false
        → has (b.heads found) (lists found) ≡ true
        → Without v (b.heads found) found b' lists'
        → IsBlock min_order order_count limit lists' (b.heads found) found
    popped-IsBlock found lists' b' lt nz h w = record {
      order_lt = lt;
      ne_zero = ground arith;
      aligned = v.aligned found _ h;
      below = v.below found _ h;
      disjoint = λ x. omega (arith, w.cover_eq x, v.disjoint x);
    }

    split :
        (order found : ℕ) {at : ℕ} {b' : Buddy}
        → order ≤ found
        → found < order_count
        → (b.heads found == 0) ≡ false
        → alloc_at min_order order_count order found (pop b found) ≡ (some at, b')
        → (lists' : ℕ → List ℕ) × Allocated at order lists b b' lists'
    split order found {at} {b'} lo lt nz e =
        let (pe, h, w) = pop-Without v found lt nz in
        let sum : found ≡ order + (found - order) = omega arith in
        let lists₁ = update lists found (erase (b.heads found) (lists found)) in
        let k = popped-IsBlock found lists₁ (pop b found).1 lt nz h w in
        let k' = subst (IsBlock min_order order_count limit lists₁ (b.heads found)) sum k in
        let (lists', r) =
          split_down-Split min_order order_count limit small (found - order) (b.heads found) order
            w.valid k' in
        let done =
          sym (alloc_at-some min_order order_count order found (b.heads found) (pop b found) pe)
          ∙ e in
        let e_at : b.heads found ≡ at = cc done in
        let e_b : split_down min_order order_count (found - order) (pop b found).1 (b.heads found)
              order
            ≡ b' =
          cc done in
        (
          lists',
          rw (← e_at, ← e_b)
              (record {
                valid = r.valid;
                order_lt = omega arith;
                aligned = r.aligned;
                ne_zero = k.ne_zero;
                below = r.below;
                cover_eq = λ x. (rw (← sum) at (r.cover_eq x)) ∙ w.cover_eq x;
                same_memory = λ y z.
                    r.same_memory y (rw (← sum) (omega (arith, w.cover_eq y))) ∙ w.same_memory y z;
              }),
        )

    -- In a valid state, a successful `alloc` returns an aligned block, not 0, that takes
    -- exactly its own bytes out of the free memory; the state stays valid, and nothing outside of
    -- the free memory is written.
    pub alloc-Allocated :
        (order : ℕ) {at : ℕ} {b' : Buddy}
        → alloc min_order order_count b order ≡ (some at, b')
        → (lists' : ℕ → List ℕ) × Allocated at order lists b b' lists'
    unfolding alloc
    alloc-Allocated order {at} {b'} e =
        elim (Bool-cases (ltb (max_order min_order order_count) order)) [
          | inl f ↦ absurd (ground arith)
          | inr f ↦
              elim (Option-cases (find_order min_order order_count (order_count - order) b order)) [
                | inl q ↦ absurd (ground arith)
                | inr (found, q) ↦
                    let (lo, hi, nz) =
                      find_order-some (order_count - order) b min_order order_count order found q in
                    split order found lo (omega arith) nz (cc (rw (f, q, alloc) at e))
              ]
        ]

    -- In a valid state, `alloc` fails only if every list from the order on is empty, or there
    -- is no such order, and then it changes nothing.
    pub alloc-none :
        (order : ℕ) {b' : Buddy}
        → alloc min_order order_count b order ≡ (none, b')
        → (o : ℕ) → order ≤ o
        → (b' ≡ b) × (lists o ≡ [])
    unfolding alloc
    alloc-none order {b'} e o le = elim (Bool-cases (ltb (max_order min_order order_count) order)) [
      | inl f ↦ (cc (rw (f, alloc) at e), v.above o (ground arith))
      | inr f ↦
          elim (Option-cases (find_order min_order order_count (order_count - order) b order)) [
            | inl q ↦ (cc (rw (f, q, alloc) at e), empty q)
            | inr (found, q) ↦
                let (lo, hi, nz) =
                  find_order-some (order_count - order) b min_order order_count order found q in
                let (pe, h, w) = pop-Without v found (omega arith) nz in
                absurd (
                  cc (
                    sym (
                      alloc_at-some min_order order_count order found (b.heads found) (pop b found)
                        pe)
                    ∙ rw (f, q, alloc) at e))
          ]
    ]
      where
        empty : find_order min_order order_count (order_count - order) b order ≡ none → lists o ≡ []
        empty q = elim (Bool-cases (ltb o order_count)) [
          | inl t ↦
              Chain-nil b.memory (b.heads o) (lists o)
                (find_order-none (order_count - order) b min_order order_count order q o le
                  (ground arith))
                (v.chain o)
          | inr t ↦ v.above o (ground arith)
        ]
