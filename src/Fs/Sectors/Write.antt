-- ===== src/Fs/Sectors/Write.antt =====
-- What `write_sectors` of kernel/src/fs/lba_abstractor.rs leaves on the partition.
use maram_os.Base.{
  ℕ, ◌+◌, ◌-◌, ◌*◌, ◌/◌, ◌≤◌, ◌<◌, ◌≡◌, refl, true, false, ◌&&◌, some, arith, ltb, leb, ◌==◌,
  leb→le, if◌then◌else◌, Bool-cases, inl, inr, div_ceil, le-div_ceil,
}
use native.Mathlib.Nat.{div-add-mod}
use maram_os.Fs.Sectors.{write_blocks, write_sectors}
use maram_os.Fs.Sectors.Stage.{within, Staged, stage_blocks-Staged}

-- The native blocks that hold the sectors.
native_covers :
    (spb start count : ℕ)
    → 0 < spb
    → (start * 512 / (spb * 512) * spb ≤ start)
      × (start + count ≤ div_ceil ((start + count) * 512) (spb * 512) * spb)
native_covers spb start count big =
    let quotient = div-add-mod (start * 512) (spb * 512) in
    let above = le-div_ceil ((start + count) * 512) (spb * 512) (omega arith) in
    (
      below (start * 512 / (spb * 512)) (grind (arith, quotient)),
      ends (div_ceil ((start + count) * 512) (spb * 512)) (grind arith) above,
    )
  where
    below : (n : ℕ) → n * spb * 512 ≤ start * 512 → n * spb ≤ start
    below n h = omega arith

    ends :
        (n : ℕ)
        → n * (spb * 512) ≡ n * spb * 512
        → (start + count) * 512 ≤ n * (spb * 512)
        → start + count ≤ n * spb
    ends n up above = omega arith

bytes : (a spb : ℕ) → a * (spb * 512) ≡ a * spb * 512
bytes a spb = grind arith

in_order :
    (spb ns ne start count : ℕ) → 0 < count → ns * spb ≤ start → start + count ≤ ne * spb → ns ≤ ne
in_order spb ns ne start count pos lo hi = elim (Bool-cases (leb ns ne)) [
  | inl e ↦ leb→le _ _ e
  | inr e ↦
      let back : ne ≤ ns = ground arith in
      let over : ne * spb ≤ ns * spb = grind arith in absurd (omega arith)
]

module _ {ℓ} {A : Type ℓ} where
  -- The partition after the staging area is written.
  written_at :
      (spb size_blocks ns ne start count : ℕ) (zeroed : A) (disk src staging : ℕ → A)
      → ns ≤ ne
      → ns * spb ≤ start
      → start + count ≤ ne * spb
      → Staged spb size_blocks disk src start count ns
          (ns + 0)
          (ns + 0 + (ne - ns))
          (λ offset. zeroed)
          staging
      → (j : ℕ)
      → (if leb (ns * (spb * 512)) (j * 512) && ltb (j * 512) ((ns + (ne - ns)) * (spb * 512))
          then staging (j * 512 - ns * (spb * 512))
          else disk (j * 512))
        ≡ (if within start count j then src ((j - start) * 512) else disk (j * 512))
  written_at spb size_blocks ns ne start count zeroed disk src staging order lo hi staged j =
      let whole : ns + (ne - ns) ≡ ne = omega arith in
      let zero_on : ns + 0 ≡ ns = omega arith in
      let from = bytes ns spb in
      let to = bytes ne spb in
      elim (Bool-cases (leb (ns * spb) j && ltb j (ne * spb))) [
        | inl e ↦
            let inside : (leb (ns * (spb * 512)) (j * 512) && ltb (j * 512) (ne * (spb * 512)))
                ≡ true =
              ground arith in
            let held = staged j (ground arith) in
            let held' = rw (zero_on, whole, e) at held in rw (whole, inside) held'
        | inr e ↦
            let outside : (leb (ns * (spb * 512)) (j * 512) && ltb (j * 512) (ne * (spb * 512)))
                ≡ false =
              ground arith in
            let other : within start count j ≡ false = ground arith in
            rw (whole, outside, other) refl
      ]

  -- A write of at least one sector, with enough pages, to blocks of whole sectors that lie on
  -- the partition succeeds: the `count` sectors from `start` on then hold what `src` holds,
  -- and every other sector of the partition holds what it held, also those that share a block
  -- with them.
  pub write_sectors_lem :
      (spb size_blocks : ℕ) (zeroed : A) (disk : ℕ → A) (start count src_pages : ℕ) (src : ℕ → A)
      → 0 < spb
      → 0 < count
      → count * 512 ≤ src_pages * 4096
      → div_ceil ((start + count) * 512) (spb * 512) ≤ size_blocks
      → (after : ℕ → A) × (write_sectors
            (spb * 512)
            size_blocks
            zeroed
            disk
            start
            count
            src_pages
            src
          ≡ some after)
        × ((j : ℕ)
            → after (j * 512)
              ≡ (if within start count j then src ((j - start) * 512) else disk (j * 512)))
  unfolding write_sectors write_blocks
  write_sectors_lem spb size_blocks zeroed disk start count src_pages src big pos pages room =
      let ns = start * 512 / (spb * 512) in
      let ne = div_ceil ((start + count) * 512) (spb * 512) in
      let (lo, hi) = native_covers spb start count big in
      let order = in_order spb ns ne start count pos lo hi in
      let (staging, ran, staged) =
        stage_blocks-Staged spb size_blocks disk src start count ns (ne - ns) 0 (λ offset. zeroed)
          pos big (omega arith) in
      let some_here : (count == 0) ≡ false = ground arith in
      let enough : ltb (src_pages * 4096) (count * 512) ≡ false = ground arith in
      let fits : ltb size_blocks (ns + (ne - ns)) ≡ false = ground arith in
      (
        (λ address.
            if leb (ns * (spb * 512)) address && ltb address ((ns + (ne - ns)) * (spb * 512))
            then staging (address - ns * (spb * 512))
            else disk address),
        rw (write_sectors, some_here, enough, ran, write_blocks, fits) refl,
        written_at spb size_blocks ns ne start count zeroed disk src staging order lo hi staged,
      )
