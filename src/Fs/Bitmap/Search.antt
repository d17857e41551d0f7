-- ===== src/Fs/Bitmap/Search.antt =====
-- What `find_first_fit` of kernel/src/fs/lemonfs/bitmap.rs finds, and what it misses.
use maram_os.Base.{
  ℕ, zero, suc, ◌+◌, ◌-◌, ◌*◌, ◌/◌, ◌%◌, ◌≤◌, ◌<◌, ◌≡◌, ◌≢◌, refl, true, false, Option, none, some,
  List, [], ◌∷◌, arith, ltb, leb, ◌==◌, ◌∙◌, ap, sym, subst, ltb→lt, leb→le, Bool-cases, inl, inr,
  length, get_elem?,
}
use maram_os.Fs.Bitmap.{
  BlockState, BitmapBlock, free, full, mixed, get, Run, extend, stop, scan_bits, visit, find_from,
  find_first_fit,
}
use maram_os.Fs.Bitmap.Bits.{bit_of}
use maram_os.Fs.Bitmap.Change.{is_set}

-- No bit from `from` up to `to` is set.
abbrev pub Clear : List BlockState → ℕ → ℕ → Type 0
Clear all from to = (n : ℕ) → from ≤ n → n < to → is_set all n ≡ false

-- The run before the bit `p` is clear, and no longer clear run ends there.
IsRun : List BlockState → ℕ → Option ℕ → ℕ → Type 0
IsRun all p none run = run ≡ 0
IsRun all p (some s) run = (s + run ≡ p) × Clear all s p

Longest : List BlockState → ℕ → ℕ → Type 0
Longest all p run = (q : ℕ) → q ≤ p → Clear all q p → p ≤ q + run

Tracks : List BlockState → ℕ → Run → Type 0
unfolding IsRun Longest
Tracks all p r = IsRun all p r.start r.run × Longest all p r.run

stop-Tracks : (all : List BlockState) (p : ℕ) → is_set all p ≡ true → Tracks all (p + 1) stop
unfolding Tracks IsRun Longest
stop-Tracks all p h = (
  refl,
  λ q le clear. elim (Bool-cases (leb q p)) [
    | inl e ↦ absurd (let c = clear p (leb→le _ _ e) (omega arith) in cc (h, c))
    | inr e ↦ ground arith
  ],
)

extend-Tracks :
    (all : List BlockState) (p by : ℕ) (r : Run)
    → Clear all p (p + by)
    → Tracks all p r
    → Tracks all (p + by) (extend r p by)
unfolding Tracks IsRun Longest
extend-Tracks all p by r clear (run, longest) = (grown r.start run, longer)
  where
    grown :
        (start : Option ℕ)
        → IsRun all p start r.run
        → IsRun all (p + by) (elim start [ none ↦ some p | some s ↦ some s ]) (r.run + by)
    grown none run = (omega arith, clear)
    grown (some s) (sum, old) = (
      omega arith,
      λ n lo hi. elim (Bool-cases (ltb n p)) [
        | inl e ↦ old n lo (ltb→lt _ _ e)
        | inr e ↦ clear n (ground arith) hi
      ],
    )

    longer : Longest all (p + by) (r.run + by)
    longer q le cl = elim (Bool-cases (leb q p)) [
      | inl e ↦ let old = longest q (ground arith) (λ n lo hi. cl n lo (omega arith)) in omega arith
      | inr e ↦ ground arith
    ]

-- The bits of block `b` are those of its state.
abbrev Holds : List BlockState → ℕ → BlockState → Type 0
Holds all b s = (j : ℕ) → j < 4096 → is_set all (b * 4096 + j) ≡ bit_of s j

scan_bits-Tracks :
    (all : List BlockState) (rounds : ℕ) (b : BitmapBlock) (block bit : ℕ) (r : Run)
    → Holds all block (mixed b)
    → bit + rounds ≡ 4096
    → Tracks all (block * 4096 + bit) r
    → Tracks all (block * 4096 + 4096) (scan_bits rounds b (block * 4096) bit r)
unfolding scan_bits
scan_bits-Tracks all zero b block bit r holds e t =
    let at : bit ≡ 4096 = omega arith in subst (λ x. Tracks all (block * 4096 + x) r) at t
scan_bits-Tracks all (suc rounds) b block bit r holds e t = elim (Bool-cases (get b bit)) [
  | inl one ↦ rw one (
      scan_bits-Tracks all rounds b block (bit + 1) stop holds (omega arith)
        (at_next stop (stop-Tracks all (block * 4096 + bit) (holds bit (omega arith) ∙ one))))
  | inr zero_bit ↦ rw zero_bit (
      scan_bits-Tracks all rounds b block (bit + 1) (extend r (block * 4096 + bit) 1) holds
        (omega arith)
        (at_next (extend r (block * 4096 + bit) 1) (
          extend-Tracks all (block * 4096 + bit) 1 r (only (holds bit (omega arith) ∙ zero_bit))
            t)))
]
  where
    at_next :
        (r' : Run)
        → Tracks all (block * 4096 + bit + 1) r'
        → Tracks all (block * 4096 + (bit + 1)) r'
    at_next r' t =
        let same : block * 4096 + bit + 1 ≡ block * 4096 + (bit + 1) = omega arith in
        subst (λ x. Tracks all x r') same t

    only :
        is_set all (block * 4096 + bit) ≡ false
        → Clear all (block * 4096 + bit) (block * 4096 + bit + 1)
    only h n lo hi =
        let same : block * 4096 + bit ≡ n = omega arith in subst (λ x. is_set all x ≡ false) same h

visit-Tracks :
    (all : List BlockState) (s : BlockState) (block : ℕ) (r : Run)
    → Holds all block s
    → Tracks all (block * 4096) r
    → Tracks all (block * 4096 + 4096) (visit s block r)
unfolding visit
visit-Tracks all free block r holds t = extend-Tracks all (block * 4096) 4096 r clear t
  where
    clear : Clear all (block * 4096) (block * 4096 + 4096)
    clear n lo hi =
        let same : block * 4096 + (n - block * 4096) ≡ n = omega arith in
        subst (λ x. is_set all x ≡ false) same (holds (n - block * 4096) (omega arith))
visit-Tracks all full block r holds t =
    let same : block * 4096 + 4095 + 1 ≡ block * 4096 + 4096 = omega arith in
    subst (λ x. Tracks all x stop) same
      (stop-Tracks all (block * 4096 + 4095) (holds 4095 (omega arith)))
visit-Tracks all (mixed b) block r holds t =
    let same : block * 4096 ≡ block * 4096 + 0 = omega arith in
    scan_bits-Tracks all 4096 b block 0 r holds refl (subst (λ x. Tracks all x r) same t)

-- `rest` is what `all` holds from the block `block` on.
Suffix : List BlockState → ℕ → List BlockState → Type 0
Suffix all block rest = (i : ℕ) → get_elem? all (block + i) ≡ get_elem? rest i

Suffix-Holds :
    (all : List BlockState) (block : ℕ) (s : BlockState) (rest : List BlockState)
    → Suffix all block (s ∷ rest)
    → Holds all block s
unfolding Suffix is_set
Suffix-Holds all block s rest suffix j h =
    let q : (block * 4096 + j) / 4096 ≡ block + 0 = omega arith in
    let m : (block * 4096 + j) % 4096 ≡ j = omega arith in rw (is_set, q, suffix 0, m) refl

Suffix-rest :
    (all : List BlockState) (block : ℕ) (s : BlockState) (rest : List BlockState)
    → Suffix all block (s ∷ rest)
    → Suffix all (block + 1) rest
unfolding Suffix
Suffix-rest all block s rest suffix i =
    let same : block + 1 + i ≡ block + suc i = omega arith in
    subst (λ x. get_elem? all x ≡ get_elem? rest i) (sym same) (suffix (suc i))

visit_at :
    (all : List BlockState) (s : BlockState) (rest : List BlockState) (block : ℕ) (r : Run)
    → Suffix all block (s ∷ rest)
    → Tracks all (block * 4096) r
    → Tracks all ((block + 1) * 4096) (visit s block r)
visit_at all s rest block r suffix t =
    let same : block * 4096 + 4096 ≡ (block + 1) * 4096 = omega arith in
    subst (λ x. Tracks all x (visit s block r)) same
      (visit-Tracks all s block r (Suffix-Holds all block s rest suffix) t)

found-Clear :
    (all : List BlockState) (p count s : ℕ) (r : Run)
    → Tracks all p r
    → count ≤ r.run
    → r.start ≡ some s
    → (s + count ≤ p) × Clear all s (s + count)
unfolding Tracks IsRun
found-Clear all p count s r (run, longest) le e =
    let (sum, clear) = subst (λ o. IsRun all p o r.run) e run in
    (omega arith, λ n lo hi. clear n lo (omega arith))

find_from-Clear :
    (all rest : List BlockState) (count block s : ℕ) (r : Run)
    → Suffix all block rest
    → Tracks all (block * 4096) r
    → find_from rest count block r ≡ some s
    → (s + count ≤ (block + length rest) * 4096) × Clear all s (s + count)
unfolding find_from
find_from-Clear all [] count block s r suffix t h = absurd (cc h)
find_from-Clear all (x ∷ rest) count block s r suffix t h =
    elim (Bool-cases (leb count (visit x block r).run)) [
      | inl e ↦
          let (le, clear) =
            found-Clear all ((block + 1) * 4096) count s (visit x block r)
              (visit_at all x rest block r suffix t) (leb→le _ _ e) (rw e at h) in
          (omega arith, clear)
      | inr e ↦
          let (le, clear) =
            find_from-Clear all rest count (block + 1) s (visit x block r)
              (Suffix-rest all block x rest suffix) (visit_at all x rest block r suffix t)
              (rw e at h) in
          (omega arith, clear)
    ]

start-Tracks : (all : List BlockState) → Tracks all 0 stop
unfolding Tracks IsRun Longest
start-Tracks all = (refl, λ q le clear. omega arith)

Suffix-start : (all : List BlockState) → Suffix all 0 all
unfolding Suffix
Suffix-start all i = let same : i ≡ 0 + i = omega arith in ap (get_elem? all) (sym same)

first_fit_from :
    (all : List BlockState) (count : ℕ)
    → 0 < count
    → find_first_fit all count ≡ find_from all count 0 stop
unfolding find_first_fit
first_fit_from all count pos = let ne : (count == 0) ≡ false = ground arith in rw ne refl

positive : (all : List BlockState) (count s : ℕ) → find_first_fit all count ≡ some s → 0 < count
unfolding find_first_fit
positive all zero s h = absurd (cc h)
positive all (suc n) s h = omega arith

-- A run that `find_first_fit` returns lies within the bitmap, and no bit of it is set.
pub find_first_fit-Clear :
    (all : List BlockState) (count s : ℕ)
    → find_first_fit all count ≡ some s
    → (0 < count) × (s + count ≤ length all * 4096) × Clear all s (s + count)
find_first_fit-Clear all count s h =
    let pos : 0 < count = positive all count s h in
    let (le, clear) =
      find_from-Clear all all count 0 s stop (Suffix-start all) (start-Tracks all)
        (sym (first_fit_from all count pos) ∙ h) in
    (pos, omega arith, clear)

-- The run that a clear stretch of `count` bits up to the end of a block leaves is long enough.
reached :
    (all : List BlockState) (p count q : ℕ) (r : Run)
    → Tracks all p r
    → q + count ≤ p
    → Clear all q p
    → leb count r.run ≡ true
unfolding Tracks Longest
reached all p count q r (run, longest) le clear =
    let far = longest q (omega arith) clear in ground arith

start-some : (all : List BlockState) (p : ℕ) (r : Run) → Tracks all p r → 0 < r.run → r.start ≢ none
unfolding Tracks IsRun
start-some all p r (run, longest) pos e =
    let zero_run : r.run ≡ 0 = subst (λ o. IsRun all p o r.run) e run in omega arith

find_from_complete :
    (all rest : List BlockState) (count block q k : ℕ) (r : Run)
    → Suffix all block rest
    → Tracks all (block * 4096) r
    → 0 < count
    → k < length rest
    → q + count ≤ (block + 1 + k) * 4096
    → Clear all q ((block + 1 + k) * 4096)
    → find_from rest count block r ≢ none
unfolding find_from
find_from_complete all [] count block q k r suffix t pos hk le clear h = absurd (omega arith)
find_from_complete all (x ∷ rest) count block q zero r suffix t pos hk le clear h =
    let same : block + 1 + 0 ≡ block + 1 = omega arith in
    let t' = visit_at all x rest block r suffix t in
    let long =
      reached all ((block + 1) * 4096) count q (visit x block r) t' (omega arith)
        (subst (λ b. Clear all q (b * 4096)) same clear) in
    let far : count ≤ (visit x block r).run = leb→le _ _ long in
    start-some all ((block + 1) * 4096) (visit x block r) t' (omega arith) (rw long at h)
find_from_complete all (x ∷ rest) count block q (suc k) r suffix t pos hk le clear h =
    let same : block + 1 + suc k ≡ block + 1 + 1 + k = omega arith in
    let t' = visit_at all x rest block r suffix t in
    let later =
      find_from_complete all rest count (block + 1) q k (visit x block r)
        (Suffix-rest all block x rest suffix) t' pos (omega arith) (omega arith)
        (subst (λ b. Clear all q (b * 4096)) same clear) in
    elim (Bool-cases (leb count (visit x block r).run)) [
      | inl e ↦
          let long : count ≤ (visit x block r).run = leb→le _ _ e in
          start-some all ((block + 1) * 4096) (visit x block r) t' (omega arith) (rw e at h)
      | inr e ↦ later (rw e at h)
    ]

-- If the `count` bits up to the end of some block are clear, then `find_first_fit` finds a run.
pub find_first_fit_complete :
    (all : List BlockState) (count q k : ℕ)
    → 0 < count
    → k < length all
    → q + count ≤ (k + 1) * 4096
    → Clear all q ((k + 1) * 4096)
    → find_first_fit all count ≢ none
unfolding Suffix
find_first_fit_complete all count q k pos hk le clear h =
    let same : k + 1 ≡ 0 + 1 + k = omega arith in
    find_from_complete all all count 0 q k stop (Suffix-start all) (start-Tracks all) pos hk
      (omega arith) (subst (λ b. Clear all q (b * 4096)) same clear)
      (sym (first_fit_from all count pos) ∙ h)

-- A set bit just before the end of a block leaves no run.
no_run :
    (all : List BlockState) (p : ℕ) (r : Run)
    → Tracks all (p + 1) r
    → is_set all p ≡ true
    → r.run ≡ 0
unfolding Tracks IsRun
no_run all p r (run, longest) h = go r.start run
  where
    go : (start : Option ℕ) → IsRun all (p + 1) start r.run → r.run ≡ 0
    go none run = run
    go (some s) (sum, clear) = elim (Bool-cases (leb s p)) [
      | inl e ↦ absurd (let c = clear p (leb→le _ _ e) (omega arith) in cc (h, c))
      | inr e ↦ ground arith
    ]

find_from_misses :
    (all rest : List BlockState) (count block : ℕ) (r : Run)
    → Suffix all block rest
    → Tracks all (block * 4096) r
    → 0 < count
    → ((k : ℕ) → k < length rest → is_set all ((block + k) * 4096 + 4095) ≡ true)
    → find_from rest count block r ≡ none
unfolding find_from
find_from_misses all [] count block r suffix t pos last = refl
find_from_misses all (x ∷ rest) count block r suffix t pos last =
    let t' = visit_at all x rest block r suffix t in
    let end : (block + 1) * 4096 ≡ (block + 0) * 4096 + 4095 + 1 = omega arith in
    let empty =
      no_run all ((block + 0) * 4096 + 4095) (visit x block r)
        (subst (λ p. Tracks all p (visit x block r)) end t') (last 0 (omega arith)) in
    let short : leb count (visit x block r).run ≡ false = ground arith in
    rw short (
      find_from_misses all rest count (block + 1) (visit x block r)
        (Suffix-rest all block x rest suffix) t' pos
        (λ k hk.
          let same : block + suc k ≡ block + 1 + k = omega arith in
          subst (λ b. is_set all (b * 4096 + 4095) ≡ true) same (last (suc k) (omega arith))))

-- If the last bit of every block is set, then `find_first_fit` finds no run, however many bits
-- are clear: it looks at the run it has counted only at the ends of the blocks.
pub find_first_fit_misses :
    (all : List BlockState) (count : ℕ)
    → ((k : ℕ) → k < length all → is_set all (k * 4096 + 4095) ≡ true)
    → find_first_fit all count ≡ none
unfolding find_first_fit
find_first_fit_misses all zero last = refl
find_first_fit_misses all (suc n) last =
    first_fit_from all (suc n) (omega arith)
    ∙ find_from_misses all all (suc n) 0 stop (Suffix-start all) (start-Tracks all) (omega arith)
        (λ k hk.
          let same : k * 4096 + 4095 ≡ (0 + k) * 4096 + 4095 = omega arith in
          subst (λ x. is_set all x ≡ true) same (last k hk))
