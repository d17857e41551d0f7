-- ===== src/Fs/Sectors/Stage.antt =====
-- What the staging area of `write_sectors` of kernel/src/fs/lba_abstractor.rs holds.
use maram_os.Base.{
  ℕ, zero, suc, ◌+◌, ◌-◌, ◌*◌, ◌/◌, ◌≤◌, ◌<◌, ◌≡◌, refl, Bool, true, false, ◌&&◌, min, some, arith,
  ltb, leb, ◌==◌, ◌∙◌, ap, sym, if◌then◌else◌, update, Bool-cases, inl, inr, max,
}
use maram_os.Fs.Sectors.{copy_sectors, read_block, stage_block, stage_blocks}

abbrev pub within : ℕ → ℕ → ℕ → Bool
within from count n = leb from n && ltb n (from + count)

module _ {ℓ} {A : Type ℓ} where
  copy_sectors_at :
      (rounds from c j : ℕ) (value staging : ℕ → A)
      → c ≤ from * 512
      → c ≤ j * 512
      → copy_sectors rounds from value (λ k. k * 512 - c) staging (j * 512 - c)
        ≡ (if within from rounds j then value j else staging (j * 512 - c))
  unfolding copy_sectors update
  copy_sectors_at zero from c j value staging lo le =
      let out : within from 0 j ≡ false = ground arith in rw out refl
  copy_sectors_at (suc rounds) from c j value staging lo le =
      let ih =
        copy_sectors_at rounds (from + 1) c j value (update staging (from * 512 - c) (value from))
          (omega arith) le in
      elim (Bool-cases (j == from)) [
        | inl e ↦
            let q : j ≡ from = ground arith in
            let later : within (from + 1) rounds j ≡ false = ground arith in
            let now : within from (suc rounds) j ≡ true = ground arith in
            let key : (j * 512 - c == from * 512 - c) ≡ true = ground arith in
            ih ∙ rw (later, now, key) (ap value (sym q))
        | inr e ↦
            let same : within from (suc rounds) j ≡ within (from + 1) rounds j = ground arith in
            let key : (j * 512 - c == from * 512 - c) ≡ false = ground arith in
            ih ∙ rw (same, key) refl
      ]

  module _ (spb size_blocks : ℕ) (disk src : ℕ → A) (start count native_start : ℕ) where
    -- What the sector `j` is to hold.
    abbrev pub wanted : ℕ → A
    wanted j = if within start count j then src ((j - start) * 512) else disk (j * 512)

    -- The staging area has this of the blocks from `from` up to `to`, and is `before` elsewhere.
    abbrev pub Staged : ℕ → ℕ → (ℕ → A) → (ℕ → A) → Type ℓ
    Staged from to before after =
        (j : ℕ)
        → native_start * spb ≤ j
        → after (j * 512 - native_start * (spb * 512)) ≡ (
            if leb (from * spb) j && ltb j (to * spb)
            then wanted j
            else before (j * 512 - native_start * (spb * 512)))

    -- The covered sectors of a block, and all of them.
    own_at :
        (first c j : ℕ) (staging : ℕ → A)
        → 0 < count
        → 0 < spb
        → c ≤ first * 512
        → c ≤ j * 512
        → copy_sectors
            (min (first + spb - 1) (start + count - 1) + 1 - max first start)
            (max first start)
            (λ k. src ((k - start) * 512))
            (λ k. k * 512 - c)
            staging
            (j * 512 - c)
          ≡ (if leb first j && ltb j (first + spb) && within start count j
              then src ((j - start) * 512)
              else staging (j * 512 - c))
    own_at first c j staging pos big lo le =
        let low : c ≤ max first start * 512 = ground arith in
        let same : within (max first start)
              (min (first + spb - 1) (start + count - 1) + 1 - max first start) j
            ≡ (leb first j && ltb j (first + spb) && within start count j) =
          ground arith in
        copy_sectors_at (min (first + spb - 1) (start + count - 1) + 1 - max first start)
          (max first start) c j (λ k. src ((k - start) * 512)) staging low le
        ∙ rw same refl

    full_at :
        (first c j : ℕ) (staging : ℕ → A)
        → 0 < count
        → 0 < spb
        → c ≤ first * 512
        → c ≤ j * 512
        → ((max first start == first)
            && (min (first + spb - 1) (start + count - 1) == first + spb - 1))
          ≡ true
        → copy_sectors
            (min (first + spb - 1) (start + count - 1) + 1 - max first start)
            (max first start)
            (λ k. src ((k - start) * 512))
            (λ k. k * 512 - c)
            staging
            (j * 512 - c)
          ≡ (if leb first j && ltb j (first + spb) then wanted j else staging (j * 512 - c))
    full_at first c j staging pos big lo le whole =
        own_at first c j staging pos big lo le
        ∙ elim (Bool-cases (leb first j && ltb j (first + spb))) [
          | inl e ↦ let t : within start count j ≡ true = ground arith in rw (e, t) refl
          | inr e ↦
              let t : (leb first j && ltb j (first + spb) && within start count j) ≡ false =
                ground arith in
              rw (t, e) refl
        ]

    partial_at :
        (first base c j : ℕ) (staging : ℕ → A)
        → 0 < count
        → 0 < spb
        → base ≡ first * 512
        → c ≤ first * 512
        → c ≤ j * 512
        → copy_sectors
            (min (first + spb - 1) (start + count - 1) + 1 - max first start)
            (max first start)
            (λ k. src ((k - start) * 512))
            (λ k. k * 512 - c)
            (copy_sectors
              (first + spb - 1 + 1 - first)
              first
              (λ k. disk (base + (k * 512 - base)))
              (λ k. k * 512 - c)
              staging)
            (j * 512 - c)
          ≡ (if leb first j && ltb j (first + spb) then wanted j else staging (j * 512 - c))
    partial_at first base c j staging pos big eq lo le =
        let all : first + spb - 1 + 1 - first ≡ spb = omega arith in
        let old =
          copy_sectors_at (first + spb - 1 + 1 - first) first c j
            (λ k. disk (base + (k * 512 - base))) staging lo le in
        own_at first c j _ pos big lo le ∙ elim (Bool-cases (leb first j && ltb j (first + spb))) [
          | inl e ↦
              let here : within first (first + spb - 1 + 1 - first) j ≡ true = ground arith in
              let at : base + (j * 512 - base) ≡ j * 512 = ground arith in
              elim (Bool-cases (within start count j)) [
                | inl t ↦
                    let both : (leb first j && ltb j (first + spb) && within start count j) ≡ true =
                      ground arith in
                    rw (both, e, t) refl
                | inr t ↦
                    let both : (leb first j && ltb j (first + spb) && within start count j)
                        ≡ false =
                      ground arith in
                    rw (both, e, t) (old ∙ rw (here, at) refl)
              ]
          | inr e ↦
              let there : within first (first + spb - 1 + 1 - first) j ≡ false = ground arith in
              let both : (leb first j && ltb j (first + spb) && within start count j) ≡ false =
                ground arith in
              rw (both, e) (old ∙ rw there refl)
        ]

    -- Two stretches, one behind the other.
    join :
        (a b c j : ℕ) (w old mid after : A)
        → a ≤ b
        → b ≤ c
        → mid ≡ (if leb a j && ltb j b then w else old)
        → after ≡ (if leb b j && ltb j c then w else mid)
        → after ≡ (if leb a j && ltb j c then w else old)
    join a b c j w old mid after ab bc one two = elim (Bool-cases (leb b j && ltb j c)) [
      | inl e ↦ let all : (leb a j && ltb j c) ≡ true = ground arith in two ∙ rw (e, all) refl
      | inr e ↦ elim (Bool-cases (leb a j && ltb j b)) [
        | inl f ↦
            let all : (leb a j && ltb j c) ≡ true = ground arith in
            two ∙ rw (e, all) (one ∙ rw f refl)
        | inr f ↦
            let all : (leb a j && ltb j c) ≡ false = ground arith in
            two ∙ rw (e, all) (one ∙ rw f refl)
      ]
    ]

    -- `stage_block` in terms of the sectors of a block.
    own : ℕ → (ℕ → A) → ℕ → A
    own block staging =
        copy_sectors (min (block * spb + spb - 1) (start + count - 1) + 1 - max (block * spb) start)
          (max (block * spb) start) (λ k. src ((k - start) * 512))
          (λ k. k * 512 - native_start * (spb * 512)) staging

    others : ℕ → (ℕ → A) → ℕ → A
    others block staging =
        copy_sectors (block * spb + spb - 1 + 1 - block * spb) (block * spb)
          (λ k. disk (block * (spb * 512) + (k * 512 - block * (spb * 512))))
          (λ k. k * 512 - native_start * (spb * 512)) staging

    stage_block_lem :
        (block : ℕ) (staging : ℕ → A)
        → block < size_blocks
        → stage_block (spb * 512) size_blocks disk src start count native_start block staging
          ≡ some (
              if (max (block * spb) start == block * spb)
                && (min (block * spb + spb - 1) (start + count - 1) == block * spb + spb - 1)
              then own block staging
              else own block (others block staging))
    unfolding stage_block read_block own others
    stage_block_lem block staging inside =
        let per : spb * 512 / 512 ≡ spb = omega arith in
        let there : ltb size_blocks (block + 1) ≡ false = ground arith in
        elim (Bool-cases (
          (max (block * spb) start == block * spb)
          && (min (block * spb + spb - 1) (start + count - 1) == block * spb + spb - 1))) [
            | inl e ↦ rw (stage_block, per, e) refl
            | inr e ↦ rw (stage_block, per, e, there, per) refl
          ]

    pub scale : (a b : ℕ) → a ≤ b → a * spb ≤ b * spb
    scale a b le = grind arith

    pub bytes : (a : ℕ) → a * (spb * 512) ≡ a * spb * 512
    bytes a = grind arith

    next : (a : ℕ) → (a + 1) * spb ≡ a * spb + spb
    next a = grind arith

    stage_block-Staged :
        (block : ℕ) (staging : ℕ → A)
        → 0 < count
        → 0 < spb
        → native_start ≤ block
        → block < size_blocks
        → (after : ℕ → A) × (stage_block
              (spb * 512)
              size_blocks
              disk
              src
              start
              count
              native_start
              block
              staging
            ≡ some after)
          × Staged block (block + 1) staging after
    unfolding own others
    stage_block-Staged block staging pos big le inside =
        (_, stage_block_lem block staging inside, (λ j from. at j from))
      where
        at :
            (j : ℕ)
            → native_start * spb ≤ j
            → (if (max (block * spb) start == block * spb)
                    && (min (block * spb + spb - 1) (start + count - 1) == block * spb + spb - 1)
                  then own block staging
                  else own block (others block staging))
                (j * 512 - native_start * (spb * 512))
              ≡ (if leb (block * spb) j && ltb j ((block + 1) * spb)
                  then wanted j
                  else staging (j * 512 - native_start * (spb * 512)))
        at j from =
            let order = scale native_start block le in
            let lo : native_start * (spb * 512) ≤ block * spb * 512 =
              omega (arith, bytes native_start) in
            let hi : native_start * (spb * 512) ≤ j * 512 = omega (arith, bytes native_start) in
            elim (Bool-cases (
              (max (block * spb) start == block * spb)
              && (min (block * spb + spb - 1) (start + count - 1) == block * spb + spb - 1))) [
                | inl e ↦
                    rw (e, next block)
                      (full_at (block * spb) (native_start * (spb * 512)) j staging pos big lo hi e)
                | inr e ↦
                    rw (e, next block)
                      (partial_at (block * spb) (block * (spb * 512)) (native_start * (spb * 512)) j
                        staging pos big (bytes block) lo hi)
              ]

    pub stage_blocks-Staged :
        (rounds i : ℕ) (staging : ℕ → A)
        → 0 < count
        → 0 < spb
        → native_start + i + rounds ≤ size_blocks
        → (after : ℕ → A) × (stage_blocks
              (spb * 512)
              size_blocks
              disk
              src
              start
              count
              native_start
              rounds
              i
              staging
            ≡ some after)
          × Staged (native_start + i) (native_start + i + rounds) staging after
    unfolding stage_blocks
    stage_blocks-Staged zero i staging pos big room = (
      staging,
      refl,
      (λ j from.
          let none_here : (leb ((native_start + i) * spb) j && ltb j ((native_start + i + 0) * spb))
              ≡ false =
            grind arith in
          rw none_here refl),
    )
    stage_blocks-Staged (suc rounds) i staging pos big room =
        let (mid, first, staged) =
          stage_block-Staged (native_start + i) staging pos big (omega arith) (omega arith) in
        let (after, rest, later) = stage_blocks-Staged rounds (i + 1) mid pos big (omega arith) in
        (
          after,
          rw (stage_blocks, first) rest,
          (λ j from.
              let up = scale (native_start + i + 1) (native_start + i + suc rounds) (omega arith) in
              let down = scale (native_start + i) (native_start + i + 1) (omega arith) in
              let same : native_start + (i + 1) ≡ native_start + i + 1 = omega arith in
              let same' : native_start + i + 1 + rounds ≡ native_start + i + suc rounds =
                omega arith in
              let one = staged j from in
              let two = later j from in
              join ((native_start + i) * spb) ((native_start + i + 1) * spb)
                ((native_start + i + suc rounds) * spb) j _ _ _ _ down up one
                (rw (same, same') at two)),
        )
