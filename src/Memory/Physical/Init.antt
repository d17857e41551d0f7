-- ===== src/Memory/Physical/Init.antt =====
-- `init` of kernel/src/memory/physical.rs.
use maram_os.Base.{
  ℕ, ◌+◌, ◌/◌, ◌≤◌, ◌<◌, ◌≡◌, refl, some, List, [], ◌∷◌, All, arith, if◌then◌else◌, Bool-cases, inl,
  inr, next_multiple_of, le-next_multiple_of, next_multiple_of-mod, next_multiple_of-lt, u64_mod,
}
use maram_os.Allocators.Buddy.{Buddy}
use maram_os.Allocators.Buddy.Cover.{covers, cover}
use maram_os.Allocators.Buddy.Valid.{Valid}
use maram_os.Memory.Physical.{min_order, order_count, page_size, next_page, Entry, push_entry, init}
use maram_os.Memory.Physical.Pages.{whole_pages, add64-fits, push_pages-Pushed}

abbrev pub first_page : Entry → ℕ
first_page entry = next_multiple_of entry.base page_size

-- Whether `x` lies in a whole page of a usable entry.
abbrev pub page_at : ℕ → Entry → ℕ
page_at x entry =
    if entry.usable
    then covers x (first_page entry) (whole_pages (first_page entry) (entry.length + entry.base))
    else 0

-- How many usable entries have `x` in a whole page.
abbrev pub pages_at : ℕ → List Entry → ℕ
pages_at x [] = 0
pages_at x (entry ∷ entries) = page_at x entry + pages_at x entries

-- What the boot loader promises: no entry is at 0 or past the end of memory.
abbrev pub IsPlaced : ℕ → Entry → Type 0
IsPlaced limit entry = (1 ≤ entry.base) × (entry.length + entry.base ≤ limit)

-- The state after the bytes that `pages` counts were added to the free memory.
pub record Ready (limit : ℕ) (pages : ℕ → ℕ) (lists : ℕ → List ℕ) (b' : Buddy) (lists' : ℕ → List ℕ)
    : Type 0 where
  pub valid : Valid min_order order_count limit b' lists'
  pub cover_eq :
      (x : ℕ) → cover min_order order_count x lists' ≡ cover min_order order_count x lists + pages x

module _ (limit fuel : ℕ) (bounded : limit + 8192 ≤ u64_mod)
    (enough : limit / page_size < fuel) where
  push_entry-Ready :
      {b : Buddy} {lists : ℕ → List ℕ} (entry : Entry)
      → Valid min_order order_count limit b lists
      → IsPlaced limit entry
      → ((x : ℕ) → page_at x entry + cover min_order order_count x lists ≤ 1)
      → (b' : Buddy) × (lists' : ℕ → List ℕ) × (push_entry fuel b entry ≡ some b')
        × Ready limit (λ x. page_at x entry) lists b' lists'
  unfolding push_entry
  push_entry-Ready {b} {lists} entry v (one, le) apart = elim (Bool-cases entry.usable) [
    | inr e ↦ rw e (b, lists, refl, record { valid = v; cover_eq = λ x. omega arith })
    | inl e ↦
        let low = le-next_multiple_of entry.base page_size (omega arith) in
        let near = next_multiple_of-lt entry.base page_size (omega arith) in
        let start : next_page entry.base ≡ first_page entry = omega arith in
        let stop = add64-fits entry.length entry.base (omega arith) in
        let (b', lists', q, p) =
          push_pages-Pushed limit bounded fuel (first_page entry) (entry.length + entry.base) v
            (omega (arith, enough)) le (omega arith) (λ z. omega (arith, low))
            (next_multiple_of-mod entry.base page_size (omega arith)) (λ x. rw e at (apart x)) in
        rw (e, start, stop) (b', lists', q, record { valid = p.valid; cover_eq = p.cover_eq })
  ]

  -- From a valid state, with a usable map whose entries do not overlap each other or the free
  -- memory, none at 0 and none past the limit, a limit of at most 2^64 - 8192, and fuel for the
  -- pages below the limit, `init` ends in a valid state. Exactly the whole pages of the usable
  -- entries were added to the free memory.
  pub init-Ready :
      (entries : List Entry) {b : Buddy} {lists : ℕ → List ℕ}
      → Valid min_order order_count limit b lists
      → All (IsPlaced limit) entries
      → ((x : ℕ) → pages_at x entries + cover min_order order_count x lists ≤ 1)
      → (b' : Buddy) × (lists' : ℕ → List ℕ) × (init fuel b entries ≡ some b')
        × Ready limit (λ x. pages_at x entries) lists b' lists'
  unfolding init
  init-Ready [] {b} {lists} v placed apart =
      (b, lists, refl, record { valid = v; cover_eq = λ x. omega arith })
  init-Ready (entry ∷ entries) {b} {lists} v placed apart =
      let (b₁, lists₁, q₁, r₁) = push_entry-Ready entry v placed.0 (λ x. omega (arith, apart x)) in
      let (b', lists', q, r) =
        init-Ready entries r₁.valid placed.1 (λ x. omega (arith, apart x, r₁.cover_eq x)) in
      rw (q₁, init)
        (
          b',
          lists',
          q,
          record { valid = r.valid; cover_eq = λ x. omega (arith, r.cover_eq x, r₁.cover_eq x) },
        )
