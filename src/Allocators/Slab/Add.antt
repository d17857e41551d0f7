-- ===== src/Allocators/Slab/Add.antt =====
-- `add_block` of kernel/src/allocators/slab.rs: a block that is wholly free takes a slot that is
-- not used.
use maram_os.Base.{
  ℕ, ◌+◌, ◌*◌, ◌≤◌, ◌<◌, ◌≡◌, ◌≢◌, refl, true, false, Bool, List, [], ◌∷◌, none, some, arith, ap,
  ◌∙◌, sym, ◌==◌, ltb, Bool-cases, Option-cases, inl, inr, u64_mod, u32_mod, update, update_self,
  update_ne,
}
use maram_os.Allocators.Buddy.{Cell}
use maram_os.Allocators.Buddy.Cover.{covers}
use maram_os.Allocators.Slab.{
  BlockInfo, PageSlab, Outcome, set_block, in_block, write_range, unused_from, free_slot, new_block,
  add_block,
}
use maram_os.Allocators.Slab.Ranges.{Range, cover}
use maram_os.Allocators.Slab.Find.{unused-some, unused-none}
use maram_os.Allocators.Slab.Valid.{Used, Valid, ValidBlock, ValidBlock-frame, cover-in_block}

-- A block of memory that no used block overlaps.
pub record IsFresh (s : PageSlab) (base total : ℕ) : Type 0 where
  pub base_pos : base ≢ 0
  pub end_lt : base + total * s.block_size < u64_mod
  pub one : 1 ≤ total
  pub small : total < u32_mod
  pub apart :
      (j y : ℕ)
      → Used s j
      → in_block s.block_size (s.blocks j) y ≡ true
      → covers y base (total * s.block_size) ≡ 0

module _ (max_blocks : ℕ) {s : PageSlab} {memory : ℕ → Cell} {lists : ℕ → List Range}
    (v : Valid s memory lists) {base total : ℕ} (k : IsFresh s base total) where
  abbrev written : ℕ → Cell
  written = write_range memory base 0 total

  abbrev at_slot : ℕ → ℕ → PageSlab
  at_slot idx n = set_block (record s { block_count = n }) idx (new_block max_blocks base total)

  filled : ValidBlock s.block_size (new_block max_blocks base total) written ((base, total) ∷ [])
  filled = record {
    base_pos = k.base_pos;
    end_lt = k.end_lt;
    small = k.small;
    within = (k.one, omega arith, omega arith, tt);
    single = λ y. ground arith;
    chain = (
      refl,
      k.base_pos,
      ap (λ (c : Cell). c.count) (update_self memory base _),
      ap (λ (c : Cell). c.next) (update_self memory base _),
    );
    account = omega arith;
  }

  module _ (idx n : ℕ) (lt : idx < n)
      (below : (j : ℕ) → j < n → (j == idx) ≡ false → j < s.block_count) where
    Used-before : (j : ℕ) → (j == idx) ≡ false → Used (at_slot idx n) j → Used s j
    Used-before j e (h, u) =
        (below j h e, ap (λ (b : BlockInfo). b.used) (sym (update_ne s.blocks idx j _ e)) ∙ u)

    was_in_block :
        (j y : ℕ)
        → (j == idx) ≡ false
        → in_block s.block_size ((at_slot idx n).blocks j) y ≡ true
        → in_block s.block_size (s.blocks j) y ≡ true
    was_in_block j y e h = rw (update_ne s.blocks idx j _ e) at h

    new_covers :
        (y : ℕ)
        → in_block s.block_size ((at_slot idx n).blocks idx) y ≡ true
        → covers y base (total * s.block_size) ≡ 1
    new_covers y h =
        let q : in_block s.block_size (new_block max_blocks base total) y ≡ true =
          rw update_self at h in
        ground arith

    clash :
        (j y : ℕ)
        → (j == idx) ≡ false
        → Used (at_slot idx n) j
        → in_block s.block_size ((at_slot idx n).blocks j) y ≡ true
        → in_block s.block_size ((at_slot idx n).blocks idx) y ≡ true
        → ⊥
    clash j y e u h h' =
        omega (arith, k.apart j y (Used-before j e u) (was_in_block j y e h), new_covers y h')

    other : (j : ℕ) → Used s j → ValidBlock s.block_size (s.blocks j) written (lists j)
    other j u = ValidBlock-frame v.pos (v.blocks j u) (λ y h.
        let e : written y ≡ memory y = update_ne memory base y _ (outside j y u h) in
        (ap (λ (c : Cell). c.next) e, ap (λ (c : Cell). c.count) e))
      where
        outside : (j y : ℕ) → Used s j → 1 ≤ cover s.block_size y (lists j) → (y == base) ≡ false
        outside j y u h = elim (Bool-cases (y == base)) [
          | inl e ↦
              let same : y ≡ base = ground arith in
              let z : covers base base (total * s.block_size) ≡ 0 =
                rw same at (k.apart j y u (cover-in_block v.pos (v.blocks j u) y h)) in
              let p : 1 ≤ total * s.block_size = grind (arith, k.one, v.pos) in
              absurd (ground arith)
          | inr e ↦ e
        ]

    apart_cases :
        (i j y : ℕ)
        → Used (at_slot idx n) i
        → Used (at_slot idx n) j
        → in_block s.block_size ((at_slot idx n).blocks i) y ≡ true
        → in_block s.block_size ((at_slot idx n).blocks j) y ≡ true
        → i ≡ j
    apart_cases i j y ui uj hi hj = elim (Bool-cases (i == idx)) [
      | inl ei ↦
          let si : i ≡ idx = ground arith in
          elim (Bool-cases (j == idx)) [
            | inl ej ↦ ground arith
            | inr ej ↦ absurd (clash j y ej uj hj (rw si at hi))
          ]
      | inr ei ↦ elim (Bool-cases (j == idx)) [
        | inl ej ↦ let sj : j ≡ idx = ground arith in absurd (clash i y ei ui hi (rw sj at hj))
        | inr ej ↦
            v.apart i j y (Used-before i ei ui) (Used-before j ej uj) (was_in_block i y ei hi)
              (was_in_block j y ej hj)
      ]
    ]

    at_slot-Valid : Valid (at_slot idx n) written (update lists idx ((base, total) ∷ []))
    at_slot-Valid = record {
      pos = v.pos;
      blocks = λ j u. elim (Bool-cases (j == idx)) [
        | inl e ↦ let same : j ≡ idx = ground arith in rw (same, update_self, update_self) filled
        | inr e ↦
            rw (update_ne s.blocks idx j _ e, update_ne lists idx j _ e)
              (other j (Used-before j e u))
      ];
      apart = apart_cases;
    }

  new_used : (idx n : ℕ) → ((at_slot idx n).blocks idx).used ≡ true
  new_used idx n = ap (λ (b : BlockInfo). b.used) (update_self s.blocks idx _)

  -- A block that was used stays so when another slot is filled.
  Used-kept :
      (idx n j : ℕ)
      → s.block_count ≤ n
      → (j == idx) ≡ false
      → Used s j
      → Used (at_slot idx n) j × ((at_slot idx n).blocks j ≡ s.blocks j)
  Used-kept idx n j le e (h, u) =
      let same = update_ne s.blocks idx j (new_block max_blocks base total) e in
      ((omega arith, ap (λ (b : BlockInfo). b.used) same ∙ u), same)

  Used-after :
      (idx n : ℕ)
      → s.block_count ≤ n
      → (s.blocks idx).used ≡ false
      → (j : ℕ) → Used s j
      → Used (at_slot idx n) j × ((at_slot idx n).blocks j ≡ s.blocks j)
  Used-after idx n le unused j u = elim (Bool-cases (j == idx)) [
    | inr e ↦ Used-kept idx n j le e u
    | inl e ↦
        let same : j ≡ idx = ground arith in
        let taken : (s.blocks idx).used ≡ true = rw same at u.1 in absurd (cc (sym unused ∙ taken))
  ]

  Used-beyond :
      (j : ℕ)
      → Used s j
      → Used (at_slot s.block_count (s.block_count + 1)) j
        × ((at_slot s.block_count (s.block_count + 1)).blocks j ≡ s.blocks j)
  Used-beyond j u =
      Used-kept s.block_count (s.block_count + 1) j (omega arith) (ground (arith, u.0)) u

  module _ (q : unused_from s s.block_count 0 ≡ none) where
    new_slot :
        ltb s.block_count max_blocks ≡ true
        → free_slot max_blocks s ≡ some (s.block_count, s.block_count + 1)
    unfolding free_slot
    new_slot room = rw (q, free_slot, room) refl

    no_slot : ltb s.block_count max_blocks ≡ false → free_slot max_blocks s ≡ none
    unfolding free_slot
    no_slot full = rw (q, free_slot, full) refl

  old_slot :
      (idx : ℕ)
      → unused_from s s.block_count 0 ≡ some idx
      → free_slot max_blocks s ≡ some (idx, s.block_count)
  unfolding free_slot
  old_slot idx q = rw (q, free_slot) refl

  into_slot :
      {idx n : ℕ}
      → free_slot max_blocks s ≡ some (idx, n)
      → add_block max_blocks s memory base total ≡ (true, at_slot idx n, written)
  unfolding add_block
  into_slot q = rw (q, add_block) refl

  without_slot :
      free_slot max_blocks s ≡ none → add_block max_blocks s memory base total ≡ (false, s, memory)
  unfolding add_block
  without_slot q = rw (q, add_block) refl

  -- What `add_block` promises.
  abbrev pub Added : Outcome Bool → Type 0
  Added (true, s', memory') =
      (idx : ℕ) × (Used s idx → ⊥)
      × (s'.block_count ≤ max_blocks)
      × (s'.blocks idx ≡ new_block max_blocks base total)
      × (s'.block_size ≡ s.block_size)
      × ((j : ℕ) → (j == idx) ≡ false → Used s' j → Used s j × (s'.blocks j ≡ s.blocks j))
      × ((y : ℕ) → (y == base) ≡ false → memory' y ≡ memory y)
      × Valid s' memory' (update lists idx ((base, total) ∷ []))
      × Used s' idx
      × ((j : ℕ) → Used s j → Used s' j × (s'.blocks j ≡ s.blocks j))
  Added (false, s', memory') =
      (s' ≡ s)
      × (memory' ≡ memory)
      × (max_blocks ≤ s.block_count)
      × ((j : ℕ) → j < s.block_count → (s.blocks j).used ≡ true)

  -- In a valid slab of at most `max_blocks` slots, `add_block` of a fresh block fills a slot that
  -- was not used with the block as one free range. From then on the slot is used, below the number
  -- of blocks; every block that was used stays so and is unchanged; no other block is used. The
  -- slab stays valid. It fails, and changes nothing, only if all `max_blocks` slots are used.
  pub add_block-Added :
      s.block_count ≤ max_blocks → Added (add_block max_blocks s memory base total)
  add_block-Added fits = elim (Option-cases (unused_from s s.block_count 0)) [
    | inr (idx, q) ↦
        let (lt, unused) = unused-some s idx q in
        rw (into_slot (old_slot idx q)) (
          idx,
          λ u. cc (sym unused ∙ u.1),
          fits,
          update_self s.blocks idx _,
          refl,
          λ j e u.
              (Used-before idx s.block_count lt (λ j h _. h) j e u, update_ne s.blocks idx j _ e),
          λ y e. update_ne memory base y _ e,
          at_slot-Valid idx s.block_count lt (λ j h _. h),
          (lt, new_used idx s.block_count),
          Used-after idx s.block_count (omega arith) unused,
        )
    | inl q ↦ elim (Bool-cases (ltb s.block_count max_blocks)) [
      | inl room ↦ rw (into_slot (new_slot q room)) (
        s.block_count,
        λ u. omega (arith, u.0),
        ground arith,
        update_self s.blocks s.block_count _,
        refl,
        λ j e u. (
          Used-before s.block_count (s.block_count + 1) (omega arith) (λ j h e. ground arith) j e u,
          update_ne s.blocks s.block_count j _ e,
        ),
        λ y e. update_ne memory base y _ e,
        at_slot-Valid s.block_count (s.block_count + 1) (omega arith) (λ j h e. ground arith),
        (omega arith, new_used s.block_count (s.block_count + 1)),
        Used-beyond,
      )
      | inr full ↦ rw (without_slot (no_slot q full)) (refl, refl, ground arith, unused-none s q)
    ]
  ]
