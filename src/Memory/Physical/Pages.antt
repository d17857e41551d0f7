-- ===== src/Memory/Physical/Pages.antt =====
-- The pages of one entry of the memory map, in kernel/src/memory/physical.rs.
use native.Mathlib.Nat.{div-add-mod}
use maram_os.Base.{
  ℕ, zero, suc, add64, u64_mod, ◌+◌, ◌-◌, ◌*◌, ◌^◌, ◌/◌, ◌%◌, ◌≤◌, ◌<◌, ◌≡◌, ◌≢◌, refl, ◌&&◌, some,
  List, arith, leb, ◌==◌, Bool-cases, inl, inr,
}
use maram_os.Allocators.Buddy.{Buddy, block_size}
use maram_os.Allocators.Buddy.Cover.{covers, cover, cover-cons, block_size_pos, block_size-blocks}
use maram_os.Allocators.Buddy.Valid.{Valid, IsBlock, push-Valid}
use maram_os.Memory.Physical.{min_order, order_count, page_size, fit_order, push_pages}

-- The bytes of the whole pages between `addr` and `end`.
abbrev pub whole_pages : ℕ → ℕ → ℕ
whole_pages addr end = (end - addr) / page_size * page_size

-- The order that is chosen fits in what is left and is aligned.
pub fit_order-Fits :
    (order rem addr : ℕ)
    → page_size ≤ rem
    → addr % page_size ≡ 0
    → (fit_order order rem addr ≤ order)
      × (block_size min_order (fit_order order rem addr) ≤ rem)
      × (addr % block_size min_order (fit_order order rem addr) ≡ 0)
unfolding fit_order
fit_order-Fits zero rem addr le mult = (omega arith, le, mult)
fit_order-Fits (suc order) rem addr le mult =
    elim (Bool-cases (
      leb (block_size min_order (suc order)) rem
      && (addr % block_size min_order (suc order) == 0))) [
        | inl e ↦ rw e (omega arith, ground arith, ground arith)
        | inr e ↦
            let (small, fits, aligned) = fit_order-Fits order rem addr le mult in
            rw e (omega arith, fits, aligned)
      ]

-- What a loop over the pages in `addr..end` promises: they are free memory, and nothing else is.
pub record Pushed (limit addr end : ℕ) (lists : ℕ → List ℕ) (b' : Buddy) (lists' : ℕ → List ℕ)
    : Type 0 where
  pub valid : Valid min_order order_count limit b' lists'
  pub cover_eq :
      (x : ℕ)
      → cover min_order order_count x lists'
        ≡ cover min_order order_count x lists + covers x addr (whole_pages addr end)

-- A block of `p` pages at the front of the pages.
multiple : (a s : ℕ) → 0 < s → a % s ≡ 0 → a ≡ a / s * s
multiple a s p h = grind (arith, div-add-mod a s)

front :
    (addr end p x : ℕ)
    → p * page_size ≤ end - addr
    → covers x addr (whole_pages addr end)
      ≡ covers x addr (p * page_size)
        + covers x (addr + p * page_size) (whole_pages (addr + p * page_size) end)
front addr end p x h =
    let sum : whole_pages addr end ≡ p * page_size + whole_pages (addr + p * page_size) end =
      omega arith in
    rw sum (covers_add x addr (p * page_size) (whole_pages (addr + p * page_size) end))
  where
    covers_add : (x a n m : ℕ) → covers x a (n + m) ≡ covers x a n + covers x (a + n) m
    covers_add x a n m = ground arith

-- A sum that fits in 64 bits does not wrap.
pub add64-fits : (a b : ℕ) → a + b < u64_mod → add64 a b ≡ a + b
add64-fits a b h = omega arith

module _ (limit : ℕ) (bounded : limit + 8192 ≤ u64_mod) where
  pages-IsBlock :
      (lists : ℕ → List ℕ) (addr end : ℕ)
      → addr + page_size ≤ end
      → end ≤ limit
      → addr ≢ 0
      → addr % page_size ≡ 0
      → ((x : ℕ) → covers x addr (whole_pages addr end) + cover min_order order_count x lists ≤ 1)
      → IsBlock min_order order_count limit lists addr (fit_order 18 (end - addr) addr)
  pages-IsBlock lists addr end more le nz mult apart =
      let (small, fits, aligned) = fit_order-Fits 18 (end - addr) addr (omega arith) mult in
      let s = block_size min_order (fit_order 18 (end - addr) addr) in
      let pages = block_size-blocks min_order (fit_order 18 (end - addr) addr) in
      record {
        order_lt = omega arith;
        ne_zero = nz;
        aligned = (addr / s, multiple addr s (block_size_pos min_order _) aligned);
        below = omega arith;
        disjoint = λ x. omega (
          arith,
          apart x,
          rw pages at
              (front addr end (2 ^ fit_order 18 (end - addr) addr) x (rw (← pages) at fits)),
        );
      }

  pub push_pages-Pushed :
      (fuel : ℕ) {b : Buddy} {lists : ℕ → List ℕ} (addr end : ℕ)
      → Valid min_order order_count limit b lists
      → (end - addr) / page_size < fuel
      → end ≤ limit
      → addr < limit + page_size
      → addr ≢ 0
      → addr % page_size ≡ 0
      → ((x : ℕ) → covers x addr (whole_pages addr end) + cover min_order order_count x lists ≤ 1)
      → (b' : Buddy) × (lists' : ℕ → List ℕ) × (push_pages fuel b addr end ≡ some b')
        × Pushed limit addr end lists b' lists'
  unfolding push_pages
  push_pages-Pushed zero addr end v f le top nz mult apart = absurd (omega arith)
  push_pages-Pushed (suc fuel) {b} {lists} addr end v f le top nz mult apart =
      let next : add64 addr page_size ≡ addr + page_size =
        add64-fits addr page_size (omega arith) in
      elim (Bool-cases (leb (addr + page_size) end)) [
        | inr e ↦
            rw (next, e)
              (
                b,
                lists,
                refl,
                record { valid = v; cover_eq = λ x. none_left lists x (ground arith) },
              )
        | inl e ↦
            let k = pages-IsBlock lists addr end (ground arith) le nz mult apart in
            let order = fit_order 18 (end - addr) addr in
            let pages = block_size-blocks min_order order in
            let (small, fits, aligned) = fit_order-Fits 18 (end - addr) addr (ground arith) mult in
            let first =
              λ (x : ℕ). rw pages at (front addr end (2 ^ order) x (rw (← pages) at fits)) in
            let v' = push-Valid min_order order_count limit v k in
            let added = λ (x : ℕ).
              (cover-cons min_order order_count order x addr (block_size min_order order) lists
                k.order_lt refl) in
            let pos = block_size_pos min_order order in
            let step = add64-fits addr (block_size min_order order) (omega arith) in
            let (b', lists', q, r) =
              push_pages-Pushed fuel (addr + block_size min_order order) end v'
                (omega (arith, pages, pos)) le (omega arith) (λ z. omega (arith, nz))
                (omega (arith, pages)) (λ x. omega (arith, first x, added x, apart x)) in
            rw (next, e, step)
              (
                b',
                lists',
                q,
                record {
                  valid = r.valid;
                  cover_eq = λ x. omega (arith, r.cover_eq x, first x, added x);
                },
              )
      ]
    where
      none_left :
          (lists : ℕ → List ℕ) (x : ℕ)
          → end < addr + page_size
          → cover min_order order_count x lists
            ≡ cover min_order order_count x lists + covers x addr (whole_pages addr end)
      none_left lists x h = let z : whole_pages addr end ≡ 0 = omega arith in rw z (ground arith)
