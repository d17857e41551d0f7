-- ===== src/Fs/Links.antt =====
-- kernel/src/fs/lemonfs/links.rs: the chains of link blocks that lead to the blocks of a file. A
-- parameter gives the links of the block that a pointer leads to, or `none` on an I/O error. A
-- chain may be a circle, so both walks are on fuel: `out_of_fuel` stands for a walk that goes on.
use maram_os.Base.{
  ℕ, zero, suc, ◌+◌, ◌≡◌, refl, Bool, true, false, ◌&&◌, ◌⊎◌, Option, none, some, List, [], ◌∷◌,
  ◌++◌, arith, ◌==◌, ap, sym, subst, if◌then◌else◌, Bool-cases, Option-cases, not, inl, inr, All,
  All-append, length, append_assoc, append-nil, length-append,
}

pub record LinkPointer : Type 0 where
  pub start : ℕ
  pub size : ℕ

-- A `LinkBlock`: its first 31 links, and the last one.
pub record LinkBlock : Type 0 where
  pub links : List LinkPointer
  pub last : LinkPointer

pub data Walk {ℓ} (A : Type ℓ) : Type ℓ where
  done : A → Walk A
  io_error : Walk A
  out_of_fuel : Walk A

abbrev pub is_valid : LinkPointer → Bool
is_valid p = if p.start == 0 then false else true

abbrev pub is_direct : LinkPointer → Bool
is_direct p = if p.size == 0 then false else true

-- `filter(|link| link.is_valid() && link.is_direct())`.
unfoldable pub direct_links : List LinkPointer → List LinkPointer
direct_links [] = []
direct_links (p ∷ rest) =
    let later = direct_links rest in if is_valid p && is_direct p then p ∷ later else later

unfoldable pub pop_last {ℓ} : {A : Type ℓ} → List A → Option (List A × A)
pop_last [] = none
pop_last (x ∷ rest) = elim (pop_last rest) [
  | none ↦ some ([], x)
  | some (init, y) ↦ some (x ∷ init, y)
]

abbrev pub if_valid : LinkPointer → List LinkPointer
if_valid p = if is_valid p then p ∷ [] else []

-- `resolve_link`, for the disk that `read` stands for.
unfoldable pub resolve_link : (ℕ → Option LinkBlock) → LinkPointer → Option (List LinkPointer)
unfolding direct_links
resolve_link read link =
    if is_valid link
    then if is_direct link then some (link ∷ []) else elim (read link.start) [
      | none ↦ none
      | some b ↦ some (direct_links b.links ++ if_valid b.last)
    ]
    else some []

-- The loop of `resolve_links`; the top of the stack is the end of the list.
unfoldable pub resolve_links :
    ℕ → (ℕ → Option LinkBlock) → List LinkPointer → Walk (List LinkPointer)
unfolding pop_last resolve_link
resolve_links zero read stack = out_of_fuel
resolve_links (suc fuel) read stack = elim (pop_last stack) [
  | none ↦ done stack
  | some (below, link) ↦
      if is_valid link
      then if is_direct link then done (below ++ link ∷ []) else elim (resolve_link read link) [
        | none ↦ io_error
        | some more ↦ resolve_links fuel read (below ++ more)
      ]
      else done below
]

-- The loop of `trace`.
unfoldable pub trace :
    ℕ
    → (ℕ → Option LinkBlock)
    → LinkPointer
    → List LinkPointer
    → List LinkPointer
    → Walk (List LinkPointer × List LinkPointer)
unfolding direct_links
trace zero read ptr direct indirect = out_of_fuel
trace (suc fuel) read ptr direct indirect =
    if is_valid ptr
    then if is_direct ptr then done (direct ++ ptr ∷ [], indirect) else elim (read ptr.start) [
      | none ↦ io_error
      | some b ↦ trace fuel read b.last (direct ++ direct_links b.links) (indirect ++ ptr ∷ [])
    ]
    else done (direct, indirect)

-- The direct links of a trace.
abbrev pub firsts : Walk (List LinkPointer × List LinkPointer) → Walk (List LinkPointer)
firsts (done (direct, indirect)) = done direct
firsts io_error = io_error
firsts out_of_fuel = out_of_fuel

IsFinal : LinkPointer → Type 0
IsFinal p = (is_valid p ≡ true) × (is_direct p ≡ true)

direct_links-IsFinal : (xs : List LinkPointer) → All IsFinal (direct_links xs)
unfolding direct_links IsFinal
direct_links-IsFinal [] = tt
direct_links-IsFinal (p ∷ rest) =
    let ih = direct_links-IsFinal rest in
    elim (Bool-cases (is_valid p && is_direct p)) [
      | inl e ↦ rw e ((ground arith, ground arith), ih)
      | inr e ↦ rw e ih
    ]

pop_last-append {ℓ} : {A : Type ℓ} (xs : List A) (x : A) → pop_last (xs ++ x ∷ []) ≡ some (xs, x)
unfolding pop_last
pop_last-append [] x = refl
pop_last-append (y ∷ ys) x = rw (pop_last, pop_last-append ys x) refl

-- The end of a stack of direct links is one of them.
pop_last-IsFinal :
    (xs : List LinkPointer)
    → All IsFinal xs
    → (xs ≡ [])
      ⊎ ((init : List LinkPointer) × (x : LinkPointer) × (xs ≡ (init ++ x ∷ [])) × IsFinal x)
pop_last-IsFinal [] h = inl refl
pop_last-IsFinal (x ∷ rest) (final, h) = elim (pop_last-IsFinal rest h) [
  | inl e ↦ inr ([], x, ap (λ r. x ∷ r) e, final)
  | inr (init, y, e, last) ↦ inr (x ∷ init, y, ap (λ r. x ∷ r) e, last)
]

resolve_stack :
    (fuel : ℕ) (read : ℕ → Option LinkBlock) (ds : List LinkPointer)
    → All IsFinal ds
    → resolve_links (suc fuel) read ds ≡ done ds
unfolding resolve_links IsFinal
resolve_stack fuel read ds h = elim (pop_last-IsFinal ds h) [
  | inl e ↦ rw e refl
  | inr (init, x, e, (v, d)) ↦ rw (e, resolve_links, pop_last-append init x, v, d) refl
]

resolve_links-firsts :
    (fuel : ℕ) (read : ℕ → Option LinkBlock) (ptr : LinkPointer) (ds is : List LinkPointer)
    → All IsFinal ds
    → resolve_links fuel read (ds ++ if_valid ptr) ≡ firsts (trace fuel read ptr ds is)
unfolding resolve_links trace resolve_link
resolve_links-firsts zero read ptr ds is h = refl
resolve_links-firsts (suc fuel) read ptr ds is h = elim (Bool-cases (is_valid ptr)) [
  | inr e ↦ rw (e, append-nil ds) (resolve_stack fuel read ds h)
  | inl e ↦ elim (Bool-cases (is_direct ptr)) [
    | inl d ↦ rw (e, resolve_links, pop_last-append ds ptr, e, d) refl
    | inr d ↦ elim (Option-cases (read ptr.start)) [
      | inl r ↦ rw (e, resolve_links, pop_last-append ds ptr, e, d, resolve_link, r) refl
      | inr (b, r) ↦
          let ih =
            resolve_links-firsts fuel read b.last (ds ++ direct_links b.links) (is ++ ptr ∷ [])
              (All-append IsFinal ds (direct_links b.links) h (direct_links-IsFinal b.links)) in
          rw (e, resolve_links, pop_last-append ds ptr, e, d, resolve_link, r)
            (rw (← append_assoc ds (direct_links b.links) (if_valid b.last)) ih)
    ]
  ]
]

-- From a start pointer that is valid, `resolve_links` gives the direct links of `trace`, in the same
-- order and with the same number of rounds, and fails where `trace` fails.
pub resolve_links-trace :
    (fuel : ℕ) (read : ℕ → Option LinkBlock) (start : LinkPointer)
    → is_valid start ≡ true
    → resolve_links fuel read (start ∷ []) ≡ firsts (trace fuel read start [] [])
resolve_links-trace fuel read start e =
    let at : if_valid start ≡ start ∷ [] = rw e refl in
    rw (← at) (resolve_links-firsts fuel read start [] [] tt)

-- A chain of `n` link blocks, the last of which leads to no other.
abbrev pub Ends : (ℕ → Option LinkBlock) → ℕ → LinkPointer → Type 0
Ends read zero ptr = (is_valid ptr && not (is_direct ptr)) ≡ false
Ends read (suc n) ptr =
    (is_valid ptr ≡ true)
    × (is_direct ptr ≡ false)
    × ((b : LinkBlock) × (read ptr.start ≡ some b) × Ends read n b.last)

-- A chain of `n` link blocks is traced in `n + 1` rounds, and `trace` names these `n` blocks.
pub trace-Ends :
    (n extra : ℕ) (read : ℕ → Option LinkBlock) (ptr : LinkPointer) (ds is : List LinkPointer)
    → Ends read n ptr
    → (direct indirect : List LinkPointer) × (trace (suc (n + extra)) read ptr ds is
        ≡ done (direct, indirect))
      × (length indirect ≡ length is + n)
unfolding trace
trace-Ends zero extra read ptr ds is ends = elim (Bool-cases (is_valid ptr)) [
  | inr e ↦ (ds, is, rw e refl, omega arith)
  | inl e ↦
      let d : is_direct ptr ≡ true = ground arith in
      (ds ++ ptr ∷ [], is, rw (e, d) refl, omega arith)
]
trace-Ends (suc n) extra read ptr ds is (e, d, (b, r, ends)) =
    let (direct, indirect, ran, len) =
      trace-Ends n extra read b.last (ds ++ direct_links b.links) (is ++ ptr ∷ []) ends in
    let fuel : suc n + extra ≡ suc (n + extra) = omega arith in
    (
      direct,
      indirect,
      subst (λ f. trace (suc f) read ptr ds is ≡ done (direct, indirect)) (sym fuel)
          (rw (trace, e, d, r) ran),
      omega (arith, length-append is (ptr ∷ [])),
    )

-- A link block whose last link leads back to it is walked round for ever.
pub trace-circle :
    (fuel : ℕ) (read : ℕ → Option LinkBlock) (ptr : LinkPointer) (b : LinkBlock)
    (ds is : List LinkPointer)
    → is_valid ptr ≡ true
    → is_direct ptr ≡ false
    → read ptr.start ≡ some b
    → b.last ≡ ptr
    → trace fuel read ptr ds is ≡ out_of_fuel
unfolding trace
trace-circle zero read ptr b ds is e d r back = refl
trace-circle (suc fuel) read ptr b ds is e d r back =
    let ih =
      trace-circle fuel read ptr b (ds ++ direct_links b.links) (is ++ ptr ∷ []) e d r back in
    rw (trace, e, d, r, back) ih
