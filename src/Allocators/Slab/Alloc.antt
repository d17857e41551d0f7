-- ===== src/Allocators/Slab/Alloc.antt =====
-- `allocate` of kernel/src/allocators/slab.rs: the first used block with a range that is large
-- enough gives the range, and the invariant holds on.
use maram_os.Base.{
  ℕ, zero, suc, ◌+◌, ◌≤◌, ◌<◌, ◌≡◌, refl, true, false, List, All, Option, none, some, arith, ap,
  ◌∙◌, sym, ◌==◌, Bool-cases, Option-cases, inl, inr, update, update_self, update_ne,
}
use maram_os.Allocators.Buddy.{Cell, head, block}
use maram_os.Allocators.Slab.{
  BlockInfo, PageSlab, Area, Outcome, area, set_block, in_block, try_next, allocate_from, allocate,
}
use maram_os.Allocators.Slab.Ranges.{
  Range, cover, Fits, first_fit, first_fit-Fits, first_fit-none, length-total,
}
use maram_os.Allocators.Slab.Cut.{Taken}
use maram_os.Allocators.Slab.Walk.{Agrees, alloc_in_block-first_fit}
use maram_os.Allocators.Slab.Valid.{
  Used, Valid, ValidBlock, IsTaken, span, ValidBlock-Listed, ValidBlock-frame, Taken-ValidBlock,
  cover-in_block,
}

-- Nothing is written outside of the block `i`.
abbrev pub SameOutside : PageSlab → ℕ → (ℕ → Cell) → (ℕ → Cell) → Type 0
SameOutside s i memory memory' =
    (y : ℕ)
    → in_block s.block_size (s.blocks i) y ≡ false
    → ((memory' y).next ≡ (memory y).next) × ((memory' y).count ≡ (memory y).count)

-- A block changes, its bounds aside, and the memory changes only inside it.
module _ (s : PageSlab) {memory : ℕ → Cell} {lists : ℕ → List Range} (i : ℕ) (b : BlockInfo)
    (xs : List Range) (v : Valid s memory lists) (u : Used s i)
    (e_base : b.phys_base ≡ (s.blocks i).phys_base)
    (e_total : b.total_blocks ≡ (s.blocks i).total_blocks) where
  pub Used-before : (j : ℕ) → Used (set_block s i b) j → Used s j
  Used-before j (lt, h) = elim (Bool-cases (j == i)) [
    | inl e ↦ let q : j ≡ i = ground arith in rw q u
    | inr e ↦ (lt, ap (λ (b : BlockInfo). b.used) (sym (update_ne s.blocks i j b e)) ∙ h)
  ]

  pub was_in_block :
      (j y : ℕ)
      → in_block s.block_size ((set_block s i b).blocks j) y ≡ true
      → in_block s.block_size (s.blocks j) y ≡ true
  was_in_block j y h = elim (Bool-cases (j == i)) [
    | inl e ↦
        let q : j ≡ i = ground arith in
        let k : in_block s.block_size b y ≡ true = rw (q, update_self) at h in
        rw q (rw (e_base, e_total) at k)
    | inr e ↦ rw (update_ne s.blocks i j b e) at h
  ]

  pub set_block-Valid :
      {memory' : ℕ → Cell}
      → (b.used ≡ true → ValidBlock s.block_size b memory' xs)
      → SameOutside s i memory memory'
      → Valid (set_block s i b) memory' (update lists i xs)
  set_block-Valid {memory'} valid same = record {
    pos = v.pos;
    blocks = λ j u'. elim (Bool-cases (j == i)) [
      | inl e ↦
          let q : j ≡ i = ground arith in
          rw (q, update_self, update_self) (valid (rw (q, update_self) at u'.1))
      | inr e ↦
          rw (update_ne s.blocks i j b e, update_ne lists i j xs e) (other j e (Used-before j u'))
    ];
    apart = λ j k y uj uk hj hk.
        v.apart j k y (Used-before j uj) (Used-before k uk) (was_in_block j y hj)
          (was_in_block k y hk);
  }
    where
      other :
          (j : ℕ)
          → (j == i) ≡ false
          → Used s j
          → ValidBlock s.block_size (s.blocks j) memory' (lists j)
      other j e uj = ValidBlock-frame v.pos (v.blocks j uj) (λ y h.
          elim (Bool-cases (in_block s.block_size (s.blocks i) y)) [
            | inl k ↦
                absurd
                  (ground (arith, v.apart j i y uj u (cover-in_block v.pos (v.blocks j uj) y h) k))
            | inr k ↦ same y k
          ])

module _ (count : ℕ) (one : 1 ≤ count) where
  -- What `allocate` promises, with the blocks from `idx` on still to be tried.
  abbrev pub Served : PageSlab → (ℕ → Cell) → (ℕ → List Range) → ℕ → Outcome (Option ℕ) → Type 0
  Served s memory lists idx (none, s', memory') =
      (s' ≡ s)
      × (memory' ≡ memory)
      × ((j : ℕ) → idx ≤ j → Used s j → All (λ (r : Range). r.1 < count) (lists j))
  Served s memory lists idx (some addr, s', memory') =
      (i : ℕ) × (xs : List Range) × (info : BlockInfo) × Used s i
      × (s' ≡ set_block s i info)
      × (info.phys_base ≡ (s.blocks i).phys_base)
      × (info.total_blocks ≡ (s.blocks i).total_blocks)
      × SameOutside s i memory memory'
      × Fits s.block_size count (s.blocks i).phys_base (span s.block_size (s.blocks i)) one
          (lists i) addr xs
      × IsTaken s' (update lists i xs) i addr count
      × Valid s' memory' (update lists i xs)

  module _ (s : PageSlab) (memory : ℕ → Cell) (lists : ℕ → List Range)
      (v : Valid s memory lists) where
    found :
        (i addr : ℕ) (xs : List Range) (a' : Area)
        → Used s i
        → first_fit s.block_size count (lists i) ≡ some (addr, xs)
        → Taken s.block_size v.pos count (area s memory i) a' head (lists i) xs
        → Served s memory lists i (some addr, set_block s i a'.info, a'.memory)
    found i addr xs a' u e t =
        let b = v.blocks i u in
        let f =
          first_fit-Fits s.block_size count (s.blocks i).phys_base (span s.block_size (s.blocks i))
            one (lists i) b.within e in
        (
          i,
          xs,
          a'.info,
          u,
          refl,
          t.info.base_eq,
          t.info.total_eq,
          same i a' xs u t,
          f,
          record {
            used = (
              u.0,
              ap (λ (b : BlockInfo). b.used) (update_self s.blocks i _) ∙ t.info.used_eq ∙ u.1,
            );
            one = one;
            base_le = rw (update_self, t.info.base_eq) f.base_le;
            end_le = rw (update_self, t.info.base_eq, t.info.total_eq) f.end_le;
            counted = rw update_self (omega (arith, t.info.allocated_eq));
            apart = λ y. rw update_self (omega (arith, f.cover_eq y, b.single y));
          },
          set_block-Valid s i a'.info xs v u t.info.base_eq t.info.total_eq
              (λ _. Taken-ValidBlock v.pos b f t) (same i a' xs u t),
        )
      where
        free_inside :
            (i y : ℕ)
            → Used s i
            → in_block s.block_size (s.blocks i) y ≡ false
            → cover s.block_size y (lists i) ≡ 0
        free_inside i y u out = elim (Bool-cases (cover s.block_size y (lists i) == 0)) [
          | inl e ↦ ground arith
          | inr e ↦ absurd (ground (arith, cover-in_block v.pos (v.blocks i u) y))
        ]

        same :
            (i : ℕ) (a' : Area) (xs : List Range) (u : Used s i)
            → Taken s.block_size v.pos count (area s memory i) a' head (lists i) xs
            → SameOutside s i memory a'.memory
        same i a' xs u t y out =
            let none_free : cover s.block_size y (lists i) ≡ 0 = free_inside i y u out in
            (t.others (block y) refl none_free, t.counts y none_free)

    -- A block without a large enough range, or that is not used, is passed over.
    skipped :
        (idx : ℕ) (r : Outcome (Option ℕ))
        → (Used s idx → All (λ (r : Range). r.1 < count) (lists idx))
        → Served s memory lists (idx + 1) r
        → Served s memory lists idx r
    skipped idx (none, s', memory') small (e, e', rest) = (
      e,
      e',
      λ j le u. elim (Bool-cases (j == idx)) [
        | inl q ↦ let same : j ≡ idx = ground arith in rw same (small (rw same at u))
        | inr q ↦ rest j (ground arith) u
      ],
    )
    skipped idx (some addr, s', memory') small k = k

    tried :
        (idx : ℕ) (p : Option ℕ × Area) (u : Used s idx)
        → Agrees s.block_size v.pos count
            (s.blocks idx).phys_base
            (span s.block_size (s.blocks idx))
            (v.blocks idx u).end_lt
            (area s memory idx)
            (lists idx)
            (first_fit s.block_size count (lists idx))
            p
        → (r : Outcome (Option ℕ)) → Served s memory lists (idx + 1) r
        → (r' : Outcome (Option ℕ)) × (try_next s idx (some r) p ≡ some r')
          × Served s memory lists idx r'
    unfolding try_next
    tried idx (o, a') u agrees r k =
        elim (Option-cases (first_fit s.block_size count (lists idx))) [
          | inl q ↦
              let e : (o, a') ≡ (none, area s memory idx) = rw q at agrees in
              let eo : o ≡ none = ap (λ (t : Option ℕ × Area). t.0) e in
              rw eo
                (r, refl, skipped idx r (λ _. first_fit-none s.block_size count (lists idx) q) k)
          | inr ((addr, xs), q) ↦
              let (eo, t) = rw q at agrees in
              rw eo
                ((some addr, set_block s idx a'.info, a'.memory), refl, found idx addr xs a' u q t)
        ]

    allocate_from-Served :
        (fuel rounds idx : ℕ)
        → ((i : ℕ) → Used s i → (s.blocks i).total_blocks < fuel)
        → idx + rounds ≡ s.block_count
        → (r : Outcome (Option ℕ)) × (allocate_from fuel s memory count rounds idx ≡ some r)
          × Served s memory lists idx r
    unfolding allocate_from try_next
    allocate_from-Served fuel zero idx f e =
        ((none, s, memory), refl, (refl, refl, λ j le u. absurd (omega (arith, u.0))))
    allocate_from-Served fuel (suc rounds) idx f e =
        let (r, q, k) = allocate_from-Served fuel rounds (idx + 1) f (omega arith) in
        elim (Bool-cases (s.blocks idx).used) [
          | inr unused ↦
              rw (unused, q) (r, refl, skipped idx r (λ u. absurd (cc (sym unused ∙ u.1))) k)
          | inl used ↦
              let u : Used s idx = (omega arith, used) in
              let b = v.blocks idx u in
              let short = length-total s.block_size _ _ (lists idx) b.within in
              let (p, done, agrees) =
                alloc_in_block-first_fit s.block_size v.pos count _ _ b.end_lt fuel
                  (area s memory idx) (lists idx) (ValidBlock-Listed v.pos count b)
                  (omega (arith, short, f idx u, b.account)) in
              rw (done, q, used) (tried idx p u agrees r k)
        ]

    -- In a valid slab, for a count that is not 0 and with fuel for the largest block, `allocate`
    -- ends. If it returns a range,
    -- the range is taken exactly out of the free ranges of one used block and the slab stays
    -- valid, and nothing is written outside of that block; if not, every free range is too small and nothing is changed.
    pub allocate-Served :
        (fuel : ℕ)
        → ((i : ℕ) → Used s i → (s.blocks i).total_blocks < fuel)
        → (r : Outcome (Option ℕ)) × (allocate fuel s memory count ≡ some r)
          × Served s memory lists 0 r
    unfolding allocate
    allocate-Served fuel f = allocate_from-Served fuel s.block_count 0 f (omega arith)
