-- ===== src/Allocators/Slab/Find.antt =====
-- `find_block` and the search of `add_block` of kernel/src/allocators/slab.rs.
use maram_os.Base.{
  add64, u64_mod, ◌%◌, ◌*◌, leb, ltb, ◌&&◌, ℕ, zero, suc, ◌+◌, ◌≤◌, ◌<◌, ◌≡◌, refl, true, false,
  List, none, some, arith, ◌∙◌, ap, sym, ◌==◌, Bool-cases, Option-cases, inl, inr,
}
use maram_os.Allocators.Buddy.{Cell}
use maram_os.Allocators.Slab.{
  PageSlab, BlockInfo, in_block, holds, find_from, find_block, owns, unused_from,
}
use maram_os.Allocators.Slab.Ranges.{Range}
use maram_os.Allocators.Slab.Valid.{Used, Valid, ValidBlock}

-- The end of a block of a valid slab does not wrap.
holds-in_block :
    {block_size : ℕ} {b : BlockInfo} {memory : ℕ → Cell} {xs : List Range}
    → ValidBlock block_size b memory xs
    → (addr : ℕ) → holds block_size b addr ≡ in_block block_size b addr
holds-in_block {block_size} {b} v addr =
    let fits : add64 b.phys_base (b.total_blocks * block_size % u64_mod)
        ≡ b.phys_base + b.total_blocks * block_size =
      omega (arith, v.end_lt) in
    ap (λ e. leb b.phys_base addr && ltb addr e) fits

module _ (s : PageSlab) where
  find_from-some :
      (addr rounds idx i : ℕ)
      → idx + rounds ≡ s.block_count
      → find_from s addr rounds idx ≡ some i
      → Used s i × (holds s.block_size (s.blocks i) addr ≡ true)
  unfolding find_from
  find_from-some addr zero idx i e q = absurd (cc q)
  find_from-some addr (suc rounds) idx i e q =
      let rest = find_from-some addr rounds (idx + 1) i (omega arith) in
      elim (Bool-cases (s.blocks idx).used) [
        | inr unused ↦ rest (rw unused at q)
        | inl used ↦ elim (Bool-cases (holds s.block_size (s.blocks idx) addr)) [
          | inr out ↦ rest (rw (used, out) at q)
          | inl inside ↦
              let k : some idx ≡ some i = rw (used, inside) at q in
              let same : idx ≡ i = cc k in rw (← same) ((omega arith, used), inside)
        ]
      ]

  find_from-none :
      (addr rounds idx : ℕ)
      → idx + rounds ≡ s.block_count
      → find_from s addr rounds idx ≡ none
      → (j : ℕ) → idx ≤ j
      → Used s j
      → holds s.block_size (s.blocks j) addr ≡ false
  unfolding find_from
  find_from-none addr zero idx e q j le u = absurd (omega (arith, u.0))
  find_from-none addr (suc rounds) idx e q j le u =
      let rest = find_from-none addr rounds (idx + 1) (omega arith) in
      elim (Bool-cases (j == idx)) [
        | inl same ↦ let k : j ≡ idx = ground arith in ground (arith, u.1)
        | inr ne ↦ elim (Bool-cases (s.blocks idx).used) [
          | inr unused ↦ rest (rw unused at q) j (ground arith) u
          | inl used ↦ elim (Bool-cases (holds s.block_size (s.blocks idx) addr)) [
            | inr out ↦ rest (rw (used, out) at q) j (ground arith) u
            | inl inside ↦ absurd (cc (rw (used, inside) at q))
          ]
        ]
      ]

  unused_from-some :
      (rounds idx i : ℕ)
      → idx + rounds ≡ s.block_count
      → unused_from s rounds idx ≡ some i
      → (i < s.block_count) × ((s.blocks i).used ≡ false)
  unfolding unused_from
  unused_from-some zero idx i e q = absurd (cc q)
  unused_from-some (suc rounds) idx i e q = elim (Bool-cases (s.blocks idx).used) [
    | inl used ↦ unused_from-some rounds (idx + 1) i (omega arith) (rw used at q)
    | inr unused ↦
        let k : some idx ≡ some i = rw unused at q in
        let same : idx ≡ i = cc k in rw (← same) (omega arith, unused)
  ]

  unused_from-none :
      (rounds idx : ℕ)
      → unused_from s rounds idx ≡ none
      → (j : ℕ) → idx ≤ j
      → j < idx + rounds
      → (s.blocks j).used ≡ true
  unfolding unused_from
  unused_from-none zero idx q j lo hi = absurd (omega arith)
  unused_from-none (suc rounds) idx q j lo hi = elim (Bool-cases (s.blocks idx).used) [
    | inr unused ↦ absurd (cc (rw unused at q))
    | inl used ↦ elim (Bool-cases (j == idx)) [
      | inl e ↦ let same : j ≡ idx = ground arith in rw same used
      | inr e ↦ unused_from-none rounds (idx + 1) (rw used at q) j (ground arith) (omega arith)
    ]
  ]

  pub unused-none :
      unused_from s s.block_count 0 ≡ none → (j : ℕ) → j < s.block_count → (s.blocks j).used ≡ true
  unused-none q j lt = unused_from-none s.block_count 0 q j (omega arith) (omega arith)

  pub unused-some :
      (i : ℕ)
      → unused_from s s.block_count 0 ≡ some i
      → (i < s.block_count) × ((s.blocks i).used ≡ false)
  unused-some i q = unused_from-some s.block_count 0 i (omega arith) q

  -- `find_block` finds the one used block that an address lies in.
  pub find_block-owner :
      (memory : ℕ → Cell) (lists : ℕ → List Range) (addr i : ℕ)
      → Valid s memory lists
      → Used s i
      → in_block s.block_size (s.blocks i) addr ≡ true
      → find_block s addr ≡ some i
  unfolding find_block
  find_block-owner memory lists addr i v u inside =
      elim (Option-cases (find_from s addr s.block_count 0)) [
        | inl q ↦ absurd (
            cc (
              sym inside
              ∙ sym (holds-in_block (v.blocks i u) addr)
              ∙ find_from-none addr s.block_count 0 (omega arith) q i (omega arith) u))
        | inr (j, q) ↦
            let (uj, k) = find_from-some addr s.block_count 0 j (omega arith) q in
            q
            ∙ ap (λ t. some t)
                (v.apart j i addr uj u (sym (holds-in_block (v.blocks j uj) addr) ∙ k) inside)
      ]

  pub owns-true : (addr i : ℕ) → find_block s addr ≡ some i → owns s addr ≡ true
  unfolding owns
  owns-true addr i q = rw (q, owns) refl

  pub owns-inside :
      {memory : ℕ → Cell} {lists : ℕ → List Range}
      → Valid s memory lists
      → (addr : ℕ) → owns s addr ≡ true
      → (i : ℕ) × Used s i × (in_block s.block_size (s.blocks i) addr ≡ true)
  unfolding owns find_block
  owns-inside v addr h = elim (Option-cases (find_from s addr s.block_count 0)) [
    | inl q ↦ absurd (cc (rw (q, owns) at h))
    | inr (i, q) ↦
        let (u, inside) = find_from-some addr s.block_count 0 i (omega arith) q in
        (i, u, sym (holds-in_block (v.blocks i u) addr) ∙ inside)
  ]
