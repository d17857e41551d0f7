-- ===== src/Allocators/Range/Allocate.antt =====
-- `allocate` of kernel/src/allocators/range.rs, read through the addresses
-- that the free list covers.
use maram_os.Base.{
  ℕ, zero, suc, ◌+◌, ◌-◌, ◌*◌, ◌%◌, ◌≤◌, ◌<◌, ◌≡◌, true, false, none, some, List, [], ◌∷◌, ◌++◌,
  append_assoc, arith, ltb, ◌==◌, if◌then◌else◌, Bool-cases, Option-cases, ap, inl, inr, All,
  All-append, u64_mod, add64, sub64, next_multiple_of, next_multiple_of-lt, le-next_multiple_of,
  next_multiple_of-mod, next_multiple_of-le, get_elem?,
}
use maram_os.Allocators.Range.{
  Range, range, RangeAllocator, end_of, aligned_start, overruns, carve, allocate_from, allocate,
  coalesce,
}
use maram_os.Allocators.Range.Cover.{
  covers, cover, IsBelow, cover-append, cover-coalesce, coalesce-IsBelow,
}

-- The block `at .. at + size` lies in `r`.
abbrev Holds : Range → ℕ → ℕ → Type 0
Holds r at size = (r.start ≤ at) × (at + size ≤ r.start + r.length)

-- `carve` where nothing wraps.
pieces : Range → ℕ → ℕ → List Range → List Range
pieces r at size rest =
    let tail = r.start + r.length - (at + size) in
    let front = if ltb r.start at then rest ++ range r.start (at - r.start) ∷ [] else rest in
    if tail == 0 then front else front ++ range (at + size) tail ∷ []

cover-pieces :
    (x : ℕ) (r : Range) (at size : ℕ) (rest : List Range)
    → Holds r at size
    → cover x (pieces r at size rest) + covers x (range at size) ≡ covers x r + cover x rest
unfolding pieces
cover-pieces x r at size rest h =
    let front = range r.start (at - r.start) in
    let back = range (at + size) (r.start + r.length - (at + size)) in
    ground (
      arith,
      cover-append x rest (front ∷ []),
      cover-append x rest (back ∷ []),
      cover-append x (rest ++ front ∷ []) (back ∷ []),
    )

pieces-IsBelow :
    (limit : ℕ) (r : Range) (at size : ℕ) (rest : List Range)
    → IsBelow limit r
    → Holds r at size
    → All (IsBelow limit) rest
    → All (IsBelow limit) (pieces r at size rest)
unfolding pieces
pieces-IsBelow limit r at size rest hr h hrest =
    let front = range r.start (at - r.start) in
    let back = range (at + size) (r.start + r.length - (at + size)) in
    let f : All (IsBelow limit) (rest ++ front ∷ []) =
      All-append _ rest _ hrest (omega arith, tt) in
    elim (Bool-cases (ltb r.start at)) [
      | inl e ↦ elim (Bool-cases (r.start + r.length - (at + size) == 0)) [
        | inl d ↦ rw (e, d) f
        | inr d ↦ rw (e, d) (All-append _ (rest ++ front ∷ []) (back ∷ []) f (ground arith, tt))
      ]
      | inr e ↦ elim (Bool-cases (r.start + r.length - (at + size) == 0)) [
        | inl d ↦ rw (e, d) hrest
        | inr d ↦ rw (e, d) (All-append _ rest (back ∷ []) hrest (ground arith, tt))
      ]
    ]

module _ (limit : ℕ) (small : limit < u64_mod) where
  carve-pieces :
      (r : Range) (at size : ℕ) (rest : List Range)
      → IsBelow limit r
      → Holds r at size
      → carve r at size rest ≡ pieces r at size rest
  unfolding carve pieces
  carve-pieces r at size rest hr h =
      let total : add64 at size ≡ at + size = omega arith in
      let whole : end_of r ≡ r.start + r.length = omega arith in
      let gap : sub64 at r.start ≡ at - r.start = omega arith in
      let tail : sub64 (r.start + r.length) (at + size) ≡ r.start + r.length - (at + size) =
        omega arith in
      rw (total, whole, gap, tail)

-- What a successful `allocate` promises of the block at `at` and of the list that it leaves.
pub record Taken (limit size align at : ℕ) (before after : List Range) : Type 0 where
  pub aligned : at % align ≡ 0
  pub below : All (IsBelow limit) after
  pub cover_eq : (x : ℕ) → cover x after + covers x (range at size) ≡ cover x before

module _ (limit size align : ℕ) (pos : 0 < align) (room : limit + align + size < u64_mod) where
  aligned_start_lem :
      (r : Range) → IsBelow limit r → aligned_start r align ≡ next_multiple_of r.start align
  unfolding aligned_start
  aligned_start_lem r h =
      let up : next_multiple_of r.start align < r.start + align = next_multiple_of-lt _ _ pos in
      omega arith

  fits :
      (r : Range)
      → IsBelow limit r
      → overruns r size align ≡ false
      → Holds r (aligned_start r align) size
  unfolding overruns
  fits r h e =
      let up : next_multiple_of r.start align < r.start + align = next_multiple_of-lt _ _ pos in
      let low : r.start ≤ next_multiple_of r.start align = le-next_multiple_of _ _ pos in
      let same = aligned_start_lem r h in
      let same_end : (next_multiple_of r.start align + size) % u64_mod
          ≡ next_multiple_of r.start align + size =
        omega arith in
      let top : r.start + r.length ≡ (r.start + r.length) % u64_mod = omega arith in
      rw same (low, ground (arith, same))

  overruns-lt :
      (r : Range) (k : ℕ)
      → IsBelow limit r
      → overruns r size align ≡ true
      → r.start ≤ k * align
      → r.start + r.length < k * align + size
  unfolding overruns
  overruns-lt r k h e le =
      let up : next_multiple_of r.start align < r.start + align = next_multiple_of-lt _ _ pos in
      let least : next_multiple_of r.start align ≤ k * align = next_multiple_of-le _ _ k pos le in
      let same = aligned_start_lem r h in ground (arith, same)

  Taken-here :
      (seen rest : List Range) (r : Range)
      → All (IsBelow limit) seen
      → All (IsBelow limit) (r ∷ rest)
      → overruns r size align ≡ false
      → Taken limit size align
          (aligned_start r align)
          (seen ++ r ∷ rest)
          (coalesce (carve r (aligned_start r align) size (seen ++ rest)))
  Taken-here seen rest r hs hr e =
      let small : limit < u64_mod = omega arith in
      let at = aligned_start r align in
      let holds = fits r hr.0 e in
      let others = All-append (IsBelow limit) seen rest hs hr.1 in
      let pieces_below = pieces-IsBelow limit r at size (seen ++ rest) hr.0 holds others in
      record {
        aligned = rw (aligned_start_lem r hr.0) (next_multiple_of-mod r.start align pos);
        below =
            rw (carve-pieces limit small r at size (seen ++ rest) hr.0 holds)
              (coalesce-IsBelow limit small _ pieces_below);
        cover_eq = λ x. rw (carve-pieces limit small r at size (seen ++ rest) hr.0 holds) (
            omega (
              arith,
              cover-coalesce limit small x _ pieces_below,
              cover-pieces x r at size (seen ++ rest) holds,
              cover-append x seen rest,
              cover-append x seen (r ∷ rest),
            ));
      }

  allocate_from-Taken :
      (seen rest : List Range)
      → All (IsBelow limit) seen
      → All (IsBelow limit) rest
      → {at : ℕ} {after : List Range} → allocate_from seen rest size align ≡ some (at, after)
      → Taken limit size align at (seen ++ rest) after
  unfolding allocate_from
  allocate_from-Taken seen [] hs hr e = cc
  allocate_from-Taken seen (r ∷ rest) hs hr {at} {after} e =
      elim (Bool-cases (overruns r size align)) [
        | inl o ↦ rw append_assoc at (
            allocate_from-Taken (seen ++ r ∷ []) rest (All-append _ seen (r ∷ []) hs (hr.0, tt))
              hr.1 (rw o at e))
        | inr o ↦
            let found = rw o at e in
            let e_at : aligned_start r align ≡ at = cc found in
            let e_after : coalesce (carve r (aligned_start r align) size (seen ++ rest)) ≡ after =
              cc found in
            rw (← e_at, ← e_after) (Taken-here seen rest r hs hr o)
      ]

  -- Every range is too short for an aligned block.
  allocate_from-none :
      (seen rest : List Range)
      → All (IsBelow limit) rest
      → allocate_from seen rest size align ≡ none
      → (i k : ℕ) {r : Range} → get_elem? rest i ≡ some r
      → r.start ≤ k * align
      → r.start + r.length < k * align + size
  unfolding allocate_from
  allocate_from-none seen [] hr e i k at le = cc
  allocate_from-none seen (s ∷ rest) hr e zero k {r} at le =
      elim (Bool-cases (overruns s size align)) [
        | inl o ↦ let same : s ≡ r = cc at in rw (← same) (overruns-lt s k hr.0 o (rw same le))
        | inr o ↦ absurd (ground arith)
      ]
  allocate_from-none seen (s ∷ rest) hr e (suc i) k {r} at le =
      elim (Bool-cases (overruns s size align)) [
        | inl o ↦ allocate_from-none (seen ++ s ∷ []) rest hr.1 (rw o at e) i k at le
        | inr o ↦ absurd (ground arith)
      ]

  module _ (s : RangeAllocator) (wf : All (IsBelow limit) s.free) where
    -- When the ranges end below a limit, and the limit, the size and the alignment together
    -- fit 64 bits, a successful `allocate` returns an aligned block that takes exactly its own
    -- addresses out of the free list, each once, and leaves every range below the limit.
    pub allocate-Taken :
        {at : ℕ} {s' : RangeAllocator}
        → allocate s size align ≡ (some at, s')
        → Taken limit size align at s.free s'.free
    unfolding allocate
    allocate-Taken {at} {s'} e = elim (Option-cases (allocate_from [] s.free size align)) [
      | inl q ↦ absurd (ground arith)
      | inr ((a, l), q) ↦
          let done = rw (q, allocate) at e in
          let e_at : a ≡ at = cc done in
          let e_free : l ≡ s'.free = cc (ap (λ t. t.1.free) done) in
          rw (← e_at, ← e_free) (allocate_from-Taken [] s.free tt wf q)
    ]

    -- When the ranges end below a limit, and the limit, the size and the alignment together
    -- fit 64 bits, `allocate` fails only if no range holds an aligned block of the size, and
    -- then it changes nothing.
    pub allocate-none :
        {s' : RangeAllocator}
        → allocate s size align ≡ (none, s')
        → (i k : ℕ) {r : Range} → get_elem? s.free i ≡ some r
        → r.start ≤ k * align
        → (s' ≡ s) × (r.start + r.length < k * align + size)
    unfolding allocate
    allocate-none {s'} e i k at le = elim (Option-cases (allocate_from [] s.free size align)) [
      | inl q ↦ (cc (rw (q, allocate) at e), allocate_from-none [] s.free wf q i k at le)
      | inr ((a, l), q) ↦ absurd (ground arith)
    ]
