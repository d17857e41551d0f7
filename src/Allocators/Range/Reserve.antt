-- ===== src/Allocators/Range/Reserve.antt =====
-- `reserve` of kernel/src/allocators/range.rs: it succeeds exactly when every address of the block
-- is free, and then takes out those addresses and no other.
use maram_os.Base.{
  ℕ, ◌+◌, ◌≤◌, ◌<◌, ◌≡◌, refl, ◌∙◌, Bool, true, false, ◌&&◌, some, List, [], ◌∷◌, arith, ltb, leb,
  ltb→lt, ◌==◌, if◌then◌else◌, Bool-cases, Option-cases, ap, inl, inr, All, All-append, u64_mod,
  checked_add,
}
use maram_os.Allocators.Range.{
  Range, RangeAllocator, end_of, advance, keep, keep_all, coalesce, reserve_in, reserve,
}
use maram_os.Allocators.Range.Cover.{
  covers, cover, IsBelow, cover-append, cover-coalesce, coalesce-IsBelow,
}
use maram_os.Allocators.Range.Sorted.{IsFrom, IsSorted, coalesce-IsSorted}

-- `x` lies in `start .. end`.
abbrev pub within : ℕ → ℕ → ℕ → Bool
within start end x = leb start x && ltb x end

module _ (limit : ℕ) (small : limit < u64_mod) where
  module _ (start end : ℕ) (order : start < end) (top : end ≤ limit) where
    cover-keep :
        (x : ℕ) (r : Range)
        → IsBelow limit r
        → (cover x (keep start end r) ≡ (if within start end x then 0 else covers x r))
          × All (IsBelow limit) (keep start end r)
    unfolding keep
    cover-keep x r h = (ground arith, ground arith)

    cover-keep_all :
        (x : ℕ) (l : List Range)
        → All (IsBelow limit) l
        → (cover x (keep_all start end l) ≡ (if within start end x then 0 else cover x l))
          × All (IsBelow limit) (keep_all start end l)
    unfolding keep_all
    cover-keep_all x [] h = (ground arith, tt)
    cover-keep_all x (r ∷ l) h =
        let (e, b) = cover-keep x r h.0 in
        let (f, c) = cover-keep_all x l h.1 in
        (
          ground (arith, cover-append x (keep start end r) (keep_all start end l)),
          All-append _ (keep start end r) _ b c,
        )

  -- If the cursor gets to `end`, the list covers all that lies between.
  advance-cover :
      (cursor end c x : ℕ) (l : List Range)
      → All (IsBelow limit) l
      → advance cursor end l ≡ some c
      → end ≤ c
      → cursor ≤ x
      → x < end
      → 1 ≤ cover x l
  unfolding advance
  advance-cover cursor end c x [] h e k lo hi = absurd (ground arith)
  advance-cover cursor end c x (r ∷ l) h e k lo hi =
      ground (arith, advance-cover cursor end c x l h.1, advance-cover (end_of r) end c x l h.1)

  cover-IsFrom : (x a : ℕ) (l : List Range) → x < a → IsFrom a l → cover x l ≡ 0
  cover-IsFrom x a [] h k = refl
  cover-IsFrom x a (r ∷ l) h k = ground (arith, cover-IsFrom x a l h k.1)

  -- Over an ascending list that covers all that lies between, the cursor gets to `end`.
  advance-total :
      (cursor end : ℕ) (l : List Range)
      → cursor < end
      → All (IsBelow limit) l
      → IsSorted l
      → ((x : ℕ) → cursor ≤ x → x < end → 1 ≤ cover x l)
      → (c : ℕ) × (advance cursor end l ≡ some c) × (end ≤ c)
  unfolding advance
  advance-total cursor end [] lt h s all = absurd (omega (arith, all cursor))
  advance-total cursor end (r ∷ l) lt h s all = elim (Bool-cases (leb (end_of r) cursor)) [
    | inl e ↦ rw e (advance-total cursor end l lt h.1 s.1 (λ x lo hi. ground (arith, all x lo hi)))
    | inr e ↦ elim (Bool-cases (ltb cursor r.start)) [
      | inl f ↦
          absurd (ground (arith, all cursor, cover-IsFrom cursor r.start l (ltb→lt _ _ f) s.0))
      | inr f ↦ elim (Bool-cases (leb end (end_of r))) [
        | inl g ↦ (end_of r, rw (e, f, g), ground arith)
        | inr g ↦
            rw (e, f, g)
              (advance-total (end_of r) end l (ground arith) h.1 s.1
                (λ x lo hi. ground (arith, all x)))
      ]
    ]
  ]

-- The state after a successful `reserve` of `start .. end`.
pub record Reserved (limit start end : ℕ) (before after : List Range) : Type 0 where
  pub below : All (IsBelow limit) after
  pub was_free : (x : ℕ) → start ≤ x → x < end → 1 ≤ cover x before
  pub cover_eq : (x : ℕ) → cover x after ≡ (if within start end x then 0 else cover x before)

module _ (limit : ℕ) (small : limit < u64_mod) where
  module _ (start end : ℕ) (order : start < end) (top : end ≤ limit) (l : List Range)
      (wf : All (IsBelow limit) l) where
    reserve_in-Reserved :
        {l' : List Range} → reserve_in start end l ≡ (true, l') → Reserved limit start end l l'
    unfolding reserve_in
    reserve_in-Reserved {l'} e = elim (Option-cases (advance start end l)) [
      | inl q ↦ absurd (ground arith)
      | inr (c, q) ↦ elim (Bool-cases (ltb c end)) [
        | inl t ↦ absurd (ground arith)
        | inr t ↦
            let e_l : coalesce (keep_all start end l) ≡ l' = cc (rw (q, t, reserve_in) at e) in
            let kept = λ (x : ℕ). cover-keep_all limit small start end order top x l wf in
            rw (← e_l) (record {
              below = coalesce-IsBelow limit small _ (kept 0).1;
              was_free =
                  λ x lo hi. advance-cover limit small start end c x l wf q (ground arith) lo hi;
              cover_eq = λ x. cover-coalesce limit small x _ (kept x).1 ∙ (kept x).0;
            })
      ]
    ]

    reserve_in-false : {l' : List Range} → reserve_in start end l ≡ (false, l') → l' ≡ l
    unfolding reserve_in
    reserve_in-false e = elim (Option-cases (advance start end l)) [
      | inl q ↦ ground arith
      | inr (c, q) ↦ ground arith
    ]

    reserve_in-total :
        IsSorted l
        → ((x : ℕ) → start ≤ x → x < end → 1 ≤ cover x l)
        → (reserve_in start end l).0 ≡ true
    unfolding reserve_in
    reserve_in-total s all =
        let (c, q, h) = advance-total limit small start end l order wf s all in
        rw (q, reserve_in) (ground arith)

  module _ (s : RangeAllocator) (wf : All (IsBelow limit) s.free) where
    checked_add-some : (a b : ℕ) → a + b ≤ limit → checked_add a b ≡ some (a + b)
    checked_add-some a b h = ground arith

    outcome :
        (start size : ℕ) (b : Bool) (s' : RangeAllocator)
        → start + size ≤ limit
        → (start == start + size) ≡ false
        → reserve s start size ≡ (b, s')
        → reserve_in start (start + size) (coalesce s.free) ≡ (b, s'.free)
    unfolding reserve
    outcome start size b s' top z e =
        let e' = rw (checked_add-some start size top, reserve) at e in
        ap {B = Bool × List Range} (λ t. (t.0, t.1.free)) (rw z at e')

    -- When the ranges and the block end below a limit that fits 64 bits, `reserve` says `true`
    -- only if every address of the block is free; it then takes out exactly those addresses.
    pub reserve-Reserved :
        (start size : ℕ) {s' : RangeAllocator}
        → start + size ≤ limit
        → reserve s start size ≡ (true, s')
        → Reserved limit start (start + size) s.free s'.free
    unfolding reserve
    reserve-Reserved start size {s'} top e =
        let e' = rw (checked_add-some start size top, reserve) at e in
        elim (Bool-cases (start == start + size)) [
          | inl z ↦
              let same : s ≡ s' = cc (rw z at e') in
              rw (← same) (record {
                below = wf;
                was_free = λ x lo hi. absurd (ground arith);
                cover_eq = λ x. ground arith;
              })
          | inr z ↦
              let r =
                reserve_in-Reserved start (start + size) (ground arith) top (coalesce s.free)
                  (coalesce-IsBelow limit small s.free wf) (outcome start size true s' top z e) in
              record {
                below = r.below;
                was_free =
                    λ x lo hi. rw (← cover-coalesce limit small x s.free wf) (r.was_free x lo hi);
                cover_eq = λ x. rw (← cover-coalesce limit small x s.free wf) (r.cover_eq x);
              }
        ]

    -- When the ranges and the block end below a limit that fits 64 bits and `reserve` says
    -- `false`, the free list covers what it covered.
    pub reserve-false :
        (start size : ℕ) {s' : RangeAllocator}
        → start + size ≤ limit
        → reserve s start size ≡ (false, s')
        → (x : ℕ) → cover x s'.free ≡ cover x s.free
    unfolding reserve
    reserve-false start size {s'} top e x =
        let e' = rw (checked_add-some start size top, reserve) at e in
        elim (Bool-cases (start == start + size)) [
          | inl z ↦ absurd (ground arith)
          | inr z ↦
              let kept =
                reserve_in-false start (start + size) (ground arith) top (coalesce s.free)
                  (coalesce-IsBelow limit small s.free wf) (outcome start size false s' top z e) in
              rw kept (cover-coalesce limit small x s.free wf)
        ]

    -- When the ranges and the block end below a limit that fits 64 bits, `reserve` succeeds
    -- whenever every address of the block is free.
    pub reserve-total :
        (start size : ℕ)
        → start + size ≤ limit
        → ((x : ℕ) → start ≤ x → x < start + size → 1 ≤ cover x s.free)
        → (reserve s start size).0 ≡ true
    unfolding reserve
    reserve-total start size top all =
        rw (checked_add-some start size top, reserve)
          (elim (Bool-cases (start == start + size)) [
            | inl z ↦ rw z refl
            | inr z ↦ rw z (
                reserve_in-total start (start + size) (ground arith) top (coalesce s.free)
                  (coalesce-IsBelow limit small s.free wf) (coalesce-IsSorted s.free)
                  (λ x lo hi. rw (cover-coalesce limit small x s.free wf) (all x lo hi)))
          ])
