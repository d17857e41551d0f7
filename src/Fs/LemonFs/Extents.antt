-- ===== src/Fs/LemonFs/Extents.antt =====
-- The extents of `build_file_chain` hold exactly the blocks that they were made of.
use maram_os.Base.{
  ℕ, suc, zero, ◌+◌, ◌*◌, ◌/◌, ◌%◌, ◌≡◌, refl, ◌==◌, ==_iff, List, [], ◌∷◌, ◌++◌, ◌∙◌, ap, sym,
  Bool-cases, inl, inr, arith, div_ceil, count_up, append_assoc, append-nil,
}
use maram_os.Fs.Links.{LinkPointer}
use maram_os.Fs.LemonFs.Chain.{add_extent, coalesce_blocks, blocks_of}

-- Every extent is a number of whole blocks.
abbrev pub AreWhole : List LinkPointer → Type 0
AreWhole [] = Unit
AreWhole (p ∷ rest) = ((k : ℕ) × (p.size ≡ k * 512)) × AreWhole rest

count_up-append : (n start : ℕ) → count_up (suc n) start ≡ count_up n start ++ (start + n) ∷ []
count_up-append zero start = ap (λ x. x ∷ []) (omega arith)
count_up-append (suc n) start =
    ap (λ r. start ∷ r)
      (count_up-append n (start + 1) ∙ ap (λ x. count_up n (start + 1) ++ x ∷ []) (omega arith))

whole_blocks : (k size : ℕ) → size ≡ k * 512 → div_ceil size 512 ≡ k
whole_blocks k size h = elim (Bool-cases (size % 512 == 0)) [
  | inl e ↦ rw e (omega arith)
  | inr e ↦ absurd (grind arith)
]

add_extent-AreWhole :
    (ps : List LinkPointer) (block : ℕ) → AreWhole ps → AreWhole (add_extent ps block)
unfolding add_extent
add_extent-AreWhole [] block h = ((1, refl), tt)
add_extent-AreWhole (p ∷ []) block ((k, e), h) =
    elim (Bool-cases ((p.start + p.size / 512) == block)) [
      | inl adjacent ↦ rw adjacent ((k + 1, omega arith), tt)
      | inr apart ↦ rw apart ((k, e), ((1, refl), tt))
    ]
add_extent-AreWhole (p ∷ q ∷ rest) block (hp, h) = (hp, add_extent-AreWhole (q ∷ rest) block h)

blocks_of-add_extent :
    (ps : List LinkPointer) (block : ℕ)
    → AreWhole ps
    → blocks_of (add_extent ps block) ≡ blocks_of ps ++ block ∷ []
unfolding add_extent blocks_of
blocks_of-add_extent [] block h = refl
blocks_of-add_extent (p ∷ []) block ((k, e), h) =
    elim (Bool-cases ((p.start + p.size / 512) == block)) [
      | inl adjacent ↦
          let next : p.start + k ≡ block =
            omega (arith, (==_iff (p.start + p.size / 512) block).0 adjacent, e) in
          rw adjacent (
            ap (λ n. count_up n p.start ++ []) (whole_blocks (suc k) (p.size + 512) (omega arith))
            ∙ append-nil (count_up (suc k) p.start)
            ∙ count_up-append k p.start
            ∙ ap (λ b. count_up k p.start ++ b ∷ []) next
            ∙ ap (λ n. count_up n p.start ++ block ∷ []) (sym (whole_blocks k p.size e))
            ∙ ap (λ r. r ++ block ∷ []) (sym (append-nil (count_up (div_ceil p.size 512) p.start))))
      | inr apart ↦
          rw apart (sym (append_assoc (count_up (div_ceil p.size 512) p.start) [] (block ∷ [])))
    ]
blocks_of-add_extent (p ∷ q ∷ rest) block (hp, h) =
    ap (λ r. count_up (div_ceil p.size 512) p.start ++ r) (blocks_of-add_extent (q ∷ rest) block h)
    ∙ sym
        (append_assoc (count_up (div_ceil p.size 512) p.start) (blocks_of (q ∷ rest)) (block ∷ []))

blocks_of-coalesce :
    (ps : List LinkPointer) (blocks : List ℕ)
    → AreWhole ps
    → blocks_of (coalesce_blocks ps blocks) ≡ blocks_of ps ++ blocks
unfolding coalesce_blocks
blocks_of-coalesce ps [] h = sym (append-nil (blocks_of ps))
blocks_of-coalesce ps (block ∷ rest) h =
    blocks_of-coalesce (add_extent ps block) rest (add_extent-AreWhole ps block h)
    ∙ ap (λ r. r ++ rest) (blocks_of-add_extent ps block h)
    ∙ append_assoc (blocks_of ps) (block ∷ []) rest

-- The extents that adjacent blocks are merged into give back the blocks, all and in their order.
pub blocks_of-coalesce_blocks : (blocks : List ℕ) → blocks_of (coalesce_blocks [] blocks) ≡ blocks
unfolding blocks_of
blocks_of-coalesce_blocks blocks = blocks_of-coalesce [] blocks tt
