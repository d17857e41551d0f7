-- ===== src/Allocators/Slab/Walk.antt =====
-- `alloc_in_block` of kernel/src/allocators/slab.rs walks the links in memory, and finds what a
-- first fit on the list of ranges finds.
use maram_os.Base.{
  ℕ, zero, suc, ◌+◌, ◌*◌, ◌≤◌, ◌<◌, ◌≡◌, refl, true, false, List, [], ◌∷◌, length, Option, none,
  some, arith, ◌∙◌, sym, ◌==◌, leb, Bool-cases, Option-cases, inl, inr, u64_mod, u32_mod,
}
use maram_os.Allocators.Buddy.{Link, head, block}
use maram_os.Allocators.Slab.{Area, read_link, cut, alloc_from, alloc_in_block}
use maram_os.Allocators.Slab.Ranges.{Range, cover, total, Within, cut_front, first_fit}
use maram_os.Allocators.Slab.Chain.{Chain, cover_head}
use maram_os.Allocators.Slab.Cut.{reach, differ_of, Taken, cut-Taken}

module _ (block_size : ℕ) (pos : 0 < block_size) (count base size : ℕ)
    (limit : base + size < u64_mod) where
  -- A list of free ranges that starts at the link `prev`.
  pub record Listed (a : Area) (prev : Link) (xs : List Range) : Type 0 where
    pub within : Within block_size base size xs
    pub single : (y : ℕ) → cover block_size y xs ≤ 1
    pub outside : reach block_size pos prev xs ≡ 0
    pub chain : Chain a.memory (read_link a prev) xs
    pub account : a.info.allocated_blocks + total xs < u32_mod

  Listed-tail :
      (a : Area) (prev : Link) (x n : ℕ) (xs : List Range)
      → Listed a prev ((x, n) ∷ xs)
      → Listed a (block x) xs
  Listed-tail a prev x n xs l = record {
    within = l.within.3;
    single = λ y. omega (arith, l.single y);
    outside = let p : 1 ≤ n * block_size = grind (arith, l.within.0) in ground (arith, l.single x);
    chain = l.chain.3;
    account = omega (arith, l.account);
  }

  -- A range is taken behind the first one.
  Taken-cons :
      (a a' : Area) (prev : Link) (x n : ℕ) (xs ys : List Range)
      → Listed a prev ((x, n) ∷ xs)
      → Taken block_size pos count a a' (block x) xs ys
      → Taken block_size pos count a a' prev ((x, n) ∷ xs) ((x, n) ∷ ys)
  Taken-cons a a' prev x n xs ys l t =
      let there = cover_head block_size pos x n xs l.within.0 in
      let (d, d') = differ_of block_size pos prev x ((x, n) ∷ xs) l.outside there in
      let tail = Listed-tail a prev x n xs l in
      record {
        chain = (
          t.others prev d (inside prev l.outside) ∙ l.chain.0,
          l.chain.1,
          t.counts x tail.outside ∙ l.chain.2,
          t.chain,
        );
        others =
            λ k e r. t.others k (differ_of block_size pos k x ((x, n) ∷ xs) r there).0 (inside k r);
        counts = λ y r. t.counts y (omega arith);
        info = t.info;
      }
    where
      inside : (k : Link) → reach block_size pos k ((x, n) ∷ xs) ≡ 0 → reach block_size pos k xs ≡ 0
      inside head h = refl
      inside (block p) h = omega arith

  alloc_from-some :
      (fuel : ℕ) (a : Area) (prev : Link) (current : ℕ) (xs : List Range) {r : ℕ} {xs' : List Range}
      → read_link a prev ≡ current
      → Listed a prev xs
      → length xs < fuel
      → first_fit block_size count xs ≡ some (r, xs')
      → (a' : Area) × (alloc_from block_size count fuel a prev current ≡ some (some r, a'))
        × Taken block_size pos count a a' prev xs xs'
  unfolding alloc_from first_fit
  alloc_from-some zero a prev current xs at l f e = absurd (omega arith)
  alloc_from-some (suc fuel) a prev current [] at l f e = absurd (cc e)
  alloc_from-some (suc fuel) a prev current ((x, n) ∷ xs) {r} {xs'} at l f e =
      let same : current ≡ x = sym at ∙ l.chain.0 in
      let nz : (x == 0) ≡ false = ground (arith, l.chain.1) in
      rw (same, nz, l.chain.2)
        (elim (Bool-cases (leb count n)) [
          | inl le ↦
              let q : some (x, cut_front block_size count x n xs) ≡ some (r, xs') = rw le at e in
              let er : x ≡ r = cc q in
              let ex : cut_front block_size count x n xs ≡ xs' = cc q in
              rw (le, ← er, ← ex) (cut block_size count a prev x, refl, here (ground arith))
          | inr le ↦ elim (Option-cases (first_fit block_size count xs)) [
            | inl q ↦ absurd (cc (rw (le, q) at e))
            | inr ((b, ys), q) ↦
                let k : some (b, (x, n) ∷ ys) ≡ some (r, xs') = rw (le, q) at e in
                let eb : b ≡ r = cc k in
                let ex : (x, n) ∷ ys ≡ xs' = cc k in
                let (a', found, t) =
                  alloc_from-some fuel a (block x) (a.memory x).next xs refl
                    (Listed-tail a prev x n xs l) (omega arith) q in
                rw (le, ← eb, ← ex) (a', found, Taken-cons a a' prev x n xs ys l t)
          ]
        ])
    where
      here :
          count ≤ n
          → Taken block_size pos count a
              (cut block_size count a prev x)
              prev
              ((x, n) ∷ xs)
              (cut_front block_size count x n xs)
      here le =
          cut-Taken block_size pos count x n xs base size l.within l.single a prev le
            (omega (arith, l.account)) limit l.outside (refl, l.chain.1, l.chain.2, l.chain.3)
            (omega (arith, l.account))

  alloc_from-none :
      (fuel : ℕ) (a : Area) (prev : Link) (current : ℕ) (xs : List Range)
      → read_link a prev ≡ current
      → Listed a prev xs
      → length xs < fuel
      → first_fit block_size count xs ≡ none
      → alloc_from block_size count fuel a prev current ≡ some (none, a)
  unfolding alloc_from first_fit
  alloc_from-none zero a prev current xs at l f e = absurd (omega arith)
  alloc_from-none (suc fuel) a prev current [] at l f e =
      let z : (current == 0) ≡ true = ground (arith, l.chain) in rw z refl
  alloc_from-none (suc fuel) a prev current ((x, n) ∷ xs) at l f e =
      let same : current ≡ x = sym at ∙ l.chain.0 in
      let nz : (x == 0) ≡ false = ground (arith, l.chain.1) in
      rw (same, nz, l.chain.2)
        (elim (Bool-cases (leb count n)) [
          | inl le ↦ absurd (ground arith)
          | inr le ↦ rw le (
              alloc_from-none fuel a (block x) (a.memory x).next xs refl
                (Listed-tail a prev x n xs l) (omega arith) (ground arith))
        ])

  -- `none` leaves all as it was; a fit is returned, and the links spell what it leaves.
  abbrev pub Agrees : Area → List Range → Option (ℕ × List Range) → Option ℕ × Area → Type 0
  Agrees a xs none r = r ≡ (none, a)
  Agrees a xs (some (addr, xs')) r =
      (r.0 ≡ some addr) × Taken block_size pos count a r.1 head xs xs'

  -- In a block below 2^64 whose free list spells the disjoint ranges `xs` of the block, with blocks
  -- that fit in 32 bits and more fuel than there are ranges, `alloc_in_block` ends, and does
  -- what a first fit on `xs` does: it returns the same address, and afterwards the links spell the
  -- ranges that the first fit leaves. Nothing is written outside of the ranges and the block's
  -- description; without a fit nothing is written.
  pub alloc_in_block-first_fit :
      (fuel : ℕ) (a : Area) (xs : List Range)
      → Listed a head xs
      → length xs < fuel
      → (r : Option ℕ × Area) × (alloc_in_block block_size count fuel a ≡ some r)
        × Agrees a xs (first_fit block_size count xs) r
  unfolding alloc_in_block
  alloc_in_block-first_fit fuel a xs l f = elim (Option-cases (first_fit block_size count xs)) [
    | inl q ↦ ((none, a), alloc_from-none fuel a head a.info.free_list xs refl l f q, rw q refl)
    | inr ((r, xs'), q) ↦
        let (a', found, t) = alloc_from-some fuel a head a.info.free_list xs refl l f q in
        ((some r, a'), found, rw q (refl, t))
  ]
