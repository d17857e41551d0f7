-- ===== src/Allocators/Buddy/Valid.antt =====
-- The invariant of kernel/src/allocators/buddy.rs: the links in memory spell one list of distinct
-- blocks for each order, aligned to their size, below `limit`, and no two of them overlap.
use maram_os.Base.{
  ℕ, ◌+◌, ◌≤◌, ◌<◌, ◌≡◌, ◌≢◌, refl, true, false, List, [], ◌∷◌, arith, ◌==◌, Bool-cases, inl, inr,
  update, update_self, update_ne, ltb,
}
use maram_os.Allocators.Buddy.{Cell, Buddy, push, block_size}
use maram_os.Allocators.Buddy.Chain.{has, Chain, frame}
use maram_os.Allocators.Buddy.Cover.{
  covers, cover, cover-update, cover-has, IsMultiple, block_size_pos,
}

-- `push` writes at the block alone.
pub push-memory :
    (b : Buddy) (addr order y : ℕ) → (y == addr) ≡ false → (push b addr order).memory y ≡ b.memory y
unfolding push
push-memory b addr order y e = update_ne b.memory addr y _ e

module _ (min_order order_count limit : ℕ) where
  pub record Valid (b : Buddy) (lists : ℕ → List ℕ) : Type 0 where
    pub chain : (o : ℕ) → Chain b.memory (b.heads o) (lists o)
    pub apart : (o o' x : ℕ) → has x (lists o) ≡ true → has x (lists o') ≡ true → o ≡ o'
    pub above : (o : ℕ) → order_count ≤ o → lists o ≡ []
    pub aligned : (o x : ℕ) → has x (lists o) ≡ true → IsMultiple x (block_size min_order o)
    pub below : (o x : ℕ) → has x (lists o) ≡ true → x + block_size min_order o ≤ limit
    pub disjoint : (x : ℕ) → cover min_order order_count x lists ≤ 1

  -- A block that may be handed to the free list of its order.
  pub record IsBlock (lists : ℕ → List ℕ) (addr order : ℕ) : Type 0 where
    pub order_lt : order < order_count
    pub ne_zero : addr ≢ 0
    pub aligned : IsMultiple addr (block_size min_order order)
    pub below : addr + block_size min_order order ≤ limit
    pub disjoint :
        (x : ℕ)
        → covers x addr (block_size min_order order) + cover min_order order_count x lists ≤ 1

  module _ {b : Buddy} {lists : ℕ → List ℕ} (v : Valid b lists) where
    pub order-lt : (o x : ℕ) → has x (lists o) ≡ true → o < order_count
    order-lt o x h = elim (Bool-cases (ltb o order_count)) [
      | inl e ↦ ground arith
      | inr e ↦ absurd (ground (arith, v.above o))
    ]

    IsBlock-fresh :
        {addr order : ℕ} → IsBlock lists addr order → (o : ℕ) → has addr (lists o) ≡ false
    IsBlock-fresh {addr} {order} k o = elim (Bool-cases (has addr (lists o))) [
      | inl h ↦ absurd (
          ground (
            arith,
            k.disjoint addr,
            cover-has min_order order_count o addr lists (order-lt o addr h) h,
            block_size_pos min_order order,
          ))
      | inr h ↦ h
    ]

    -- A cell outside of every list may change.
    frame-update :
        (o addr : ℕ) (c : Cell)
        → has addr (lists o) ≡ false
        → Chain (update b.memory addr c) (b.heads o) (lists o)
    unfolding update
    frame-update o addr c out =
        frame b.memory (update b.memory addr c) (b.heads o) (lists o) (v.chain o)
          (λ x i. ground arith)

    push-Chain :
        {addr order : ℕ}
        → IsBlock lists addr order
        → (o : ℕ)
        → Chain
            (push b addr order).memory
            ((push b addr order).heads o)
            (update lists order (addr ∷ lists order) o)
    unfolding push
    push-Chain {addr} {order} k o = elim (Bool-cases (o == order)) [
      | inl e ↦
          let same : o ≡ order = ground arith in
          let out = IsBlock-fresh k order in
          rw same (
            rw (update_self, update_self, update_self)
              (refl, k.ne_zero, out, frame-update order addr (link order) out))
      | inr e ↦
          rw (update_ne b.heads order o addr e, update_ne lists order o (addr ∷ lists order) e)
            (frame-update o addr (link order) (IsBlock-fresh k o))
    ]
      where
        link : ℕ → Cell
        link order = record { next = b.heads order; count = (b.memory addr).count }

    push-aligned :
        {addr order : ℕ}
        → IsBlock lists addr order
        → (o x : ℕ) → has x (update lists order (addr ∷ lists order) o) ≡ true
        → IsMultiple x (block_size min_order o)
    unfolding update
    push-aligned {addr} {order} k o x h = elim (Bool-cases (o == order)) [
      | inl e ↦
          let same : o ≡ order = ground arith in
          rw same (elim (Bool-cases (x == addr)) [
            | inl f ↦ let at : x ≡ addr = ground arith in rw at k.aligned
            | inr f ↦ v.aligned order x (ground arith)
          ])
      | inr e ↦ v.aligned o x (ground arith)
    ]

    -- `push` puts the block in front of its list.
    pub push-Valid :
        {addr order : ℕ}
        → IsBlock lists addr order
        → Valid (push b addr order) (update lists order (addr ∷ lists order))
    unfolding update
    push-Valid {addr} {order} k = record {
      chain = push-Chain k;
      apart = λ o o' x h h'. ground (arith, v.apart o o' x, IsBlock-fresh k o, IsBlock-fresh k o');
      above = λ o h. ground (arith, k.order_lt, v.above o);
      aligned = push-aligned k;
      below = λ o x h. ground (arith, v.below o x);
      disjoint = λ x. omega (
        arith,
        cover-update min_order order_count order x lists (addr ∷ lists order) k.order_lt,
        k.disjoint x,
      );
    }
