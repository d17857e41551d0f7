-- ===== src/Allocators/Buddy/Unlink.antt =====
-- `pop` and `remove` of kernel/src/allocators/buddy.rs keep the invariant: a list loses one block.
use maram_os.Base.{
  ℕ, ◌+◌, ◌≤◌, ◌<◌, ◌≡◌, refl, ◌∙◌, true, false, some, List, arith, ◌==◌, Bool-cases, inl, inr,
  length, update, update_self, update_ne,
}
use maram_os.Allocators.Buddy.Valid.{Valid}
use maram_os.Allocators.Buddy.{read_next, set_head, Buddy, pop, remove, block_size}
use maram_os.Allocators.Buddy.Chain.{
  has, erase, Chain, Chain-head, frame, has_of-erase, length-erase, erase_not, Removed,
  remove-Removed,
}
use maram_os.Allocators.Buddy.Cover.{
  covers, cover_list, cover, cover_list-erase, cover-update, cover-has, block_size_pos,
}

module _ {min_order order_count limit : ℕ} {b : Buddy} {lists : ℕ → List ℕ}
    (v : Valid min_order order_count limit b lists) where
  -- A list may lose blocks.
  shrink-Valid :
      (b' : Buddy) (order : ℕ) (l : List ℕ)
      → order < order_count
      → ((o : ℕ) → Chain b'.memory (b'.heads o) (update lists order l o))
      → ((x : ℕ) → has x l ≡ true → has x (lists order) ≡ true)
      → ((x : ℕ)
          → cover_list x (block_size min_order order) l
            ≤ cover_list x (block_size min_order order) (lists order))
      → Valid min_order order_count limit b' (update lists order l)
  unfolding update
  shrink-Valid b' order l lt chain sub le = record {
    chain = chain;
    apart = λ o o' x h h'. v.apart o o' x (member o x h) (member o' x h');
    above = λ o h. ground (arith, v.above o);
    aligned = λ o x h. v.aligned o x (member o x h);
    below = λ o x h. v.below o x (member o x h);
    disjoint = λ x.
        omega (arith, cover-update min_order order_count order x lists l lt, v.disjoint x, le x);
  }
    where
      member : (o x : ℕ) → has x (update lists order l o) ≡ true → has x (lists o) ≡ true
      member o x h = elim (Bool-cases (o == order)) [
        | inl e ↦ let same : o ≡ order = ground arith in rw same (sub x (ground arith))
        | inr e ↦ ground arith
      ]

  -- What `pop` and `remove` leave when the block `a` of `order` comes out.
  pub record Without (a order : ℕ) (b' : Buddy) (lists' : ℕ → List ℕ) : Type 0 where
    pub valid : Valid min_order order_count limit b' lists'
    pub same : (o : ℕ) → (o == order) ≡ false → lists' o ≡ lists o
    pub shorter : length (lists' order) ≤ length (lists order)
    pub cover_eq :
        (x : ℕ)
        → cover min_order order_count x lists' + covers x a (block_size min_order order)
          ≡ cover min_order order_count x lists
    pub same_memory : (y : ℕ) → cover min_order order_count y lists ≡ 0 → b'.memory y ≡ b.memory y

  -- A free block is covered.
  not_listed :
      (order : ℕ)
      → order < order_count
      → (y : ℕ) → cover min_order order_count y lists ≡ 0
      → has y (lists order) ≡ false
  not_listed order lt y z = elim (Bool-cases (has y (lists order))) [
    | inl h ↦ absurd (
        omega (
          arith,
          cover-has min_order order_count order y lists lt h,
          block_size_pos min_order order,
          z,
        ))
    | inr h ↦ h
  ]

  erase-Without :
      (b' : Buddy) (a order : ℕ)
      → order < order_count
      → has a (lists order) ≡ true
      → ((o : ℕ) → Chain b'.memory (b'.heads o) (update lists order (erase a (lists order)) o))
      → ((y : ℕ) → has y (lists order) ≡ false → b'.memory y ≡ b.memory y)
      → Without a order b' (update lists order (erase a (lists order)))
  erase-Without b' a order lt h chain same = record {
    same_memory = λ y z. same y (not_listed order lt y z);
    valid =
        shrink-Valid b' order (erase a (lists order)) lt chain
          (λ x i. has_of-erase x a (lists order) i)
          (λ x. omega (arith, cover_list-erase x a (block_size min_order order) (lists order) h));
    same = λ o d. update_ne lists order o _ d;
    shorter = rw update_self (length-erase a (lists order));
    cover_eq = λ x. omega (
      arith,
      cover-update min_order order_count order x lists (erase a (lists order)) lt,
      cover_list-erase x a (block_size min_order order) (lists order) h,
    );
  }

  Removed-Chain_ne :
      (b' : Buddy) (addr order o : ℕ)
      → Removed b addr order (lists order) b'
      → (o == order) ≡ false
      → Chain b'.memory (b'.heads o) (lists o)
  Removed-Chain_ne b' addr order o r d = rw (r.heads o d) (
      frame b.memory b'.memory (b.heads o) (lists o) (v.chain o)
        (λ x i. r.same x (ground (arith, v.apart o order x))))

  -- `remove` takes out a block that is free at that order.
  pub remove-hit :
      (fuel addr order : ℕ)
      → order < order_count
      → length (lists order) < fuel
      → has addr (lists order) ≡ true
      → (b' : Buddy) × (remove fuel b addr order ≡ some (true, b'))
        × Without addr order b' (update lists order (erase addr (lists order)))
  remove-hit fuel addr order lt f h =
      let (b', e, r) = remove-Removed fuel b addr order (lists order) (v.chain order) f in
      (
        b',
        e ∙ rw h refl,
        erase-Without b' addr order lt h
            (λ o. elim (Bool-cases (o == order)) [
              | inl d ↦ let same : o ≡ order = ground arith in rw same (rw update_self r.chain)
              | inr d ↦ rw (update_ne lists order o _ d) (Removed-Chain_ne b' addr order o r d)
            ])
            r.same,
      )

  -- `remove` changes no list if the block is not free at that order.
  pub remove-miss :
      (fuel addr order : ℕ)
      → order < order_count
      → length (lists order) < fuel
      → has addr (lists order) ≡ false
      → (b' : Buddy) × (remove fuel b addr order ≡ some (false, b'))
        × Valid min_order order_count limit b' lists
        × ((y : ℕ) → cover min_order order_count y lists ≡ 0 → b'.memory y ≡ b.memory y)
  remove-miss fuel addr order lt f h =
      let (b', e, r) = remove-Removed fuel b addr order (lists order) (v.chain order) f in
      (
        b',
        e ∙ rw h refl,
        record {
          chain = λ o. elim (Bool-cases (o == order)) [
            | inl d ↦
                let same : o ≡ order = ground arith in
                rw same (rw (erase_not addr (lists order) h) at r.chain)
            | inr d ↦ Removed-Chain_ne b' addr order o r d
          ];
          apart = v.apart;
          above = v.above;
          aligned = v.aligned;
          below = v.below;
          disjoint = v.disjoint;
        },
        λ y z. r.same y (not_listed order lt y z),
      )

  -- `pop` takes out the first block of a list that is not empty.
  pub pop-Without :
      (order : ℕ)
      → order < order_count
      → (b.heads order == 0) ≡ false
      → (pop b order).0 ≡ some (b.heads order)
        × (has (b.heads order) (lists order) ≡ true)
        × Without
            (b.heads order)
            order
            (pop b order).1
            (update lists order (erase (b.heads order) (lists order)))
  unfolding pop
  pop-Without order lt nz =
      let (h, c) = Chain-head b.memory (b.heads order) (lists order) nz (v.chain order) in
      rw nz (
        refl,
        h,
        erase-Without (set_head b order (read_next b (b.heads order))) (b.heads order) order lt h
            (λ o. elim (Bool-cases (o == order)) [
              | inl d ↦
                  let same : o ≡ order = ground arith in rw same (rw (update_self, update_self) c)
              | inr d ↦ rw (update_ne b.heads order o _ d, update_ne lists order o _ d) (v.chain o)
            ])
            (λ y _. refl),
      )
