-- ===== src/Allocators/Slab/Cut.antt =====
-- `alloc_in_block` of kernel/src/allocators/slab.rs where the range at `current` is large enough:
-- the links spell the shorter list, and nothing outside of the free ranges changes.
use maram_os.Base.{
  ℕ, ◌+◌, ◌-◌, ◌*◌, ◌%◌, ◌≤◌, ◌<◌, ◌≡◌, ◌≢◌, refl, true, false, Bool, not, List, ◌∷◌, arith, ap,
  ◌∙◌, ◌==◌, Bool-cases, inl, inr, update_self, update_ne, u64_mod, u32_mod, add64,
}
use maram_os.Allocators.Buddy.{Cell, Link, head, block}
use maram_os.Allocators.Slab.{
  BlockInfo, Area, read_link, write_link, write_range, add_allocated, cut,
}
use maram_os.Allocators.Buddy.Cover.{covers}
use maram_os.Allocators.Slab.Ranges.{Range, cover, Within, cut_front}
use maram_os.Allocators.Slab.Chain.{Chain, frame}

abbrev pub differ : Link → Link → Bool
differ head head = false
differ head (block q) = true
differ (block p) head = true
differ (block p) (block q) = not (p == q)

read_link-write_link : (a : Area) (l : Link) (v : ℕ) → read_link (write_link a l v) l ≡ v
read_link-write_link a head v = refl
read_link-write_link a (block p) v = ap (λ (c : Cell). c.next) (update_self a.memory p _)

read_link-write_link_ne :
    (a : Area) (k l : Link) (v : ℕ)
    → differ k l ≡ true
    → read_link (write_link a l v) k ≡ read_link a k
read_link-write_link_ne a head head v d = absurd (cc d)
read_link-write_link_ne a head (block q) v d = refl
read_link-write_link_ne a (block p) head v d = refl
read_link-write_link_ne a (block p) (block q) v d =
    let e : (p == q) ≡ false = ground arith in
    ap (λ (c : Cell). c.next) (update_ne a.memory q p _ e)

count-write_link :
    (a : Area) (l : Link) (v y : ℕ) → ((write_link a l v).memory y).count ≡ (a.memory y).count
count-write_link a head v y = refl
count-write_link a (block p) v y = elim (Bool-cases (y == p)) [
  | inl e ↦
      let same : y ≡ p = ground arith in
      rw same (ap (λ (c : Cell). c.count) (update_self a.memory p _))
  | inr e ↦ ap (λ (c : Cell). c.count) (update_ne a.memory p y _ e)
]

read_link-add_allocated :
    (a : Area) (l : Link) (n : ℕ) → read_link (add_allocated a n) l ≡ read_link a l
read_link-add_allocated a head n = refl
read_link-add_allocated a (block p) n = refl

-- A change of the block's description other than of its free list.
pub record SameInfo (b b' : BlockInfo) (count : ℕ) : Type 0 where
  pub base_eq : b'.phys_base ≡ b.phys_base
  pub total_eq : b'.total_blocks ≡ b.total_blocks
  pub used_eq : b'.used ≡ b.used
  pub allocated_eq : b'.allocated_blocks ≡ b.allocated_blocks + count

add_allocated-SameInfo :
    (a : Area) (l : Link) (v count : ℕ)
    → a.info.allocated_blocks + count < u32_mod
    → SameInfo a.info (add_allocated (write_link a l v) count).info count
add_allocated-SameInfo a head v count h = record {
  base_eq = refl;
  total_eq = refl;
  used_eq = refl;
  allocated_eq = omega arith;
}
add_allocated-SameInfo a (block p) v count h = record {
  base_eq = refl;
  total_eq = refl;
  used_eq = refl;
  allocated_eq = omega arith;
}

module _ (block_size : ℕ) (pos : 0 < block_size) where
  -- How many free ranges a link lies in.
  abbrev pub reach : Link → List Range → ℕ
  reach head xs = 0
  reach (block y) xs = cover block_size y xs

  -- A link outside of the free ranges differs from a link inside.
  pub differ_of :
      (k : Link) (y : ℕ) (xs : List Range)
      → reach k xs ≡ 0
      → 1 ≤ cover block_size y xs
      → (differ k (block y) ≡ true) × (differ (block y) k ≡ true)
  differ_of head y xs h c = (refl, refl)
  differ_of (block p) y xs h c = elim (Bool-cases (p == y)) [
    | inl e ↦
        let same : p ≡ y = ground arith in
        let z : cover block_size y xs ≡ 0 = rw same at h in absurd (omega arith)
    | inr e ↦ (ground arith, ground arith)
  ]

  -- What an allocation leaves of the list `xs` that starts at the link `prev`.
  pub record Taken (count : ℕ) (a a' : Area) (prev : Link) (xs xs' : List Range) : Type 0 where
    pub chain : Chain a'.memory (read_link a' prev) xs'
    pub others : (k : Link) → differ k prev ≡ true → reach k xs ≡ 0 → read_link a' k ≡ read_link a k
    pub counts : (y : ℕ) → cover block_size y xs ≡ 0 → (a'.memory y).count ≡ (a.memory y).count
    pub info : SameInfo a.info a'.info count

  module _ (count x n : ℕ) (xs : List Range) (base size : ℕ)
      (w : Within block_size base size ((x, n) ∷ xs))
      (single : (y : ℕ) → cover block_size y ((x, n) ∷ xs) ≤ 1) where
    inside : (k : Link) (y : ℕ) → reach k ((x, n) ∷ xs) ≡ 0 → reach k xs ≡ 0
    inside head y h = refl
    inside (block p) y h = omega arith

    cut_exact-Taken :
        (a : Area) (prev : Link)
        → reach prev ((x, n) ∷ xs) ≡ 0
        → Chain a.memory x ((x, n) ∷ xs)
        → a.info.allocated_blocks + count < u32_mod
        → Taken count a
            (add_allocated (write_link a prev (a.memory x).next) count)
            prev
            ((x, n) ∷ xs)
            xs
    cut_exact-Taken a prev out (e, nz, cnt, c) h = record {
      chain = rw (read_link-add_allocated, read_link-write_link) tail;
      others = λ k d r. rw read_link-add_allocated (read_link-write_link_ne a k prev _ d);
      counts = λ y r. count-write_link a prev _ y;
      info = add_allocated-SameInfo a prev _ count h;
    }
      where
        tail : Chain (write_link a prev (a.memory x).next).memory (a.memory x).next xs
        tail = frame block_size pos a.memory _ base size _ xs w.3 c (λ y i. (
          read_link-write_link_ne a (block y) prev _ (differ_of prev y xs (inside prev y out) i).1,
          count-write_link a prev _ y,
        ))

    -- The memory with the rest of the range written behind its front.
    abbrev split : ℕ
    split = x + count * block_size

    unfoldable split_area : Area → Area
    split_area a = record a { memory = write_range a.memory split (a.memory x).next (n - count) }

    module _ (lt : count < n) where
      split-covers : covers split x (n * block_size) ≡ 1
      split-covers =
          let le : count * block_size + block_size ≤ n * block_size = grind arith in ground arith

      split_self :
          (a : Area)
          → (((split_area a).memory split).next ≡ (a.memory x).next)
            × (((split_area a).memory split).count ≡ n - count)
      unfolding split_area
      split_self a = (
        ap (λ (c : Cell). c.next) (update_self a.memory split _),
        ap (λ (c : Cell). c.count) (update_self a.memory split _),
      )

      split_ne : (a : Area) (y : ℕ) → (y == split) ≡ false → (split_area a).memory y ≡ a.memory y
      unfolding split_area
      split_ne a y h = update_ne a.memory split y _ h

      read_link-split_area :
          (a : Area) (k : Link)
          → reach k ((x, n) ∷ xs) ≡ 0
          → read_link (split_area a) k ≡ read_link a k
      unfolding split_area
      read_link-split_area a head h = refl
      read_link-split_area a (block p) h = ap (λ (c : Cell). c.next) (split_ne a p (ne p h))
        where
          ne : (p : ℕ) → cover block_size p ((x, n) ∷ xs) ≡ 0 → (p == split) ≡ false
          ne p h = elim (Bool-cases (p == split)) [
            | inl e ↦
                let same : p ≡ split = ground arith in
                let z = rw same at h in absurd (omega (arith, split-covers, z))
            | inr e ↦ e
          ]

      behind : (y : ℕ) → 1 ≤ cover block_size y xs → (y == split) ≡ false
      behind y i = elim (Bool-cases (y == split)) [
        | inl e ↦
            let same : y ≡ split = ground arith in
            let j = rw same at i in absurd (omega (arith, single split, split-covers, j))
        | inr e ↦ e
      ]

      cut_split-Taken :
          (a : Area) (prev : Link)
          → reach prev ((x, n) ∷ xs) ≡ 0
          → Chain a.memory x ((x, n) ∷ xs)
          → a.info.allocated_blocks + count < u32_mod
          → Taken count a
              (add_allocated (write_link (split_area a) prev split) count)
              prev
              ((x, n) ∷ xs)
              ((split, n - count) ∷ xs)
      unfolding split_area
      cut_split-Taken a prev out (e, nz, cnt, c) h = record {
        chain = (
          read_link-add_allocated (write_link (split_area a) prev split) prev count
              ∙ read_link-write_link (split_area a) prev split,
          nonzero nz,
          count-write_link (split_area a) prev split split ∙ (split_self a).1,
          rw (next_eq) tail,
        );
        others = λ k d r.
            read_link-add_allocated (write_link (split_area a) prev split) k count
            ∙ read_link-write_link_ne (split_area a) k prev _ d
            ∙ read_link-split_area a k r;
        counts = λ y r.
            count-write_link (split_area a) prev _ y
            ∙ ap (λ (c : Cell). c.count) (split_ne a y (off y r));
        info = add_allocated-SameInfo (split_area a) prev _ count h;
      }
        where
          nonzero : x ≢ 0 → split ≢ 0
          nonzero nz z = nz (omega arith)

          off : (y : ℕ) → cover block_size y ((x, n) ∷ xs) ≡ 0 → (y == split) ≡ false
          off y h = elim (Bool-cases (y == split)) [
            | inl e ↦
                let same : y ≡ split = ground arith in
                let z = rw same at h in absurd (omega (arith, split-covers, z))
            | inr e ↦ e
          ]

          next_eq : ((write_link (split_area a) prev split).memory split).next ≡ (a.memory x).next
          next_eq =
              read_link-write_link_ne (split_area a) (block split) prev split
                (differ_of prev split ((x, n) ∷ xs) out (omega (arith, split-covers))).1
              ∙ (split_self a).0

          tail : Chain (write_link (split_area a) prev split).memory (a.memory x).next xs
          tail = frame block_size pos a.memory _ base size _ xs w.3 c (λ y i. (
            read_link-write_link_ne (split_area a) (block y) prev _
                  (differ_of prev y xs (inside prev y out) i).1
                ∙ ap (λ (c : Cell). c.next) (split_ne a y (behind y i)),
            count-write_link (split_area a) prev _ y
                ∙ ap (λ (c : Cell). c.count) (split_ne a y (behind y i)),
          ))

    -- `alloc_in_block` at a range that is large enough.
    pub cut-Taken :
        (a : Area) (prev : Link)
        → count ≤ n
        → n < u32_mod
        → base + size < u64_mod
        → reach prev ((x, n) ∷ xs) ≡ 0
        → Chain a.memory x ((x, n) ∷ xs)
        → a.info.allocated_blocks + count < u32_mod
        → Taken count a
            (cut block_size count a prev x)
            prev
            ((x, n) ∷ xs)
            (cut_front block_size count x n xs)
    unfolding cut split_area
    cut-Taken a prev le small limit out c h = elim (Bool-cases (n == count)) [
      | inl e ↦ rw (c.2, e) (cut_exact-Taken a prev out c h)
      | inr e ↦
          let lt : count < n = ground arith in
          let fit : x + count * block_size ≤ x + n * block_size = grind arith in
          let sum : add64 x (count * block_size) ≡ split = omega (arith, w.2) in
          let short : count % u32_mod ≡ count = omega arith in
          rw (c.2, e, sum, short) (rw short at (cut_split-Taken lt a prev out c h))
    ]
