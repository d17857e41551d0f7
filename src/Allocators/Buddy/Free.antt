-- ===== src/Allocators/Buddy/Free.antt =====
-- `free_with` and `free` of kernel/src/allocators/buddy.rs: whatever buddies are merged on the way,
-- the bytes of the block are added to the free memory, and no others.
use maram_os.Base.{
  ℕ, zero, suc, ◌+◌, ◌-◌, ◌*◌, ◌/◌, ◌%◌, ◌<◌, ◌≡◌, ◌⊎◌, refl, Bool, true, false, Option, some, List,
  ◌∷◌, arith, ltb, ◌==◌, Bool-cases, inl, inr, ap, ◌∙◌, update, min, length, bit_xor-pow,
}
use maram_os.Allocators.Buddy.{Buddy, push, block_size, buddy_of, max_order, merge_up, free_with}
use maram_os.Allocators.Buddy.Chain.{has, Chain-ne_zero}
use maram_os.Allocators.Buddy.Cover.{
  covers, cover, cover-cons, IsMultiple, block_size-suc, block_size_pos,
}
use maram_os.Allocators.Buddy.Valid.{Valid, IsBlock, push-Valid, push-memory}
use maram_os.Allocators.Buddy.Unlink.{Without, remove-hit, remove-miss}

-- Two buddies of `s` bytes make one block of `s * 2`: the lower one is a multiple of `s * 2`, and
-- the block covers what the two cover.
record Pair (s addr buddy : ℕ) : Type 0 where
  pub aligned : IsMultiple (min addr buddy) (s * 2)
  pub next_to : (addr + s ≡ buddy) ⊎ (buddy + s ≡ addr)
  pub whole : (x : ℕ) → covers x (min addr buddy) (s * 2) ≡ covers x addr s + covers x buddy s

Pair-even : (s q : ℕ) → q % 2 ≡ 0 → Pair s (q * s) ((q + 1) * s)
Pair-even s q h =
    let low : min (q * s) ((q + 1) * s) ≡ q * s = omega arith in
    let half : q ≡ q / 2 * 2 = omega arith in
    record {
      aligned = (q / 2, rw low (ap (λ t. t * s) half ∙ omega arith));
      next_to = inl (omega arith);
      whole = λ x. rw low (ground arith);
    }

Pair-odd : (s q : ℕ) → (q % 2 == 0) ≡ false → Pair s (q * s) ((q - 1) * s)
Pair-odd s zero h = cc
Pair-odd s (suc p) h =
    let parity : p % 2 ≡ 0 = ground arith in
    let prev : suc p - 1 ≡ p = omega arith in
    let low : min (suc p * s) (p * s) ≡ p * s = omega arith in
    let half : p ≡ p / 2 * 2 = omega arith in
    rw prev (record {
      aligned = (p / 2, rw low (ap (λ t. t * s) half ∙ omega arith));
      next_to = inr (omega arith);
      whole = λ x. rw low (ground arith);
    })

buddy-Pair :
    (min_order order addr : ℕ)
    → IsMultiple addr (block_size min_order order)
    → Pair (block_size min_order order) addr (buddy_of min_order addr order)
buddy-Pair min_order order addr (q, e) =
    let s = block_size min_order order in
    rw e (
      rw (bit_xor-pow (order + min_order) q) (elim (Bool-cases (q % 2 == 0)) [
        | inl h ↦ rw h (Pair-even s q (ground arith))
        | inr h ↦ rw h (Pair-odd s q h)
      ]))

module _ (min_order order_count limit : ℕ) where
  -- What `free_with` promises: the block is free memory again, and nothing is written outside of the
  -- free memory.
  pub record Freed (addr order : ℕ) (lists : ℕ → List ℕ) (b b' : Buddy) (lists' : ℕ → List ℕ)
      : Type 0 where
    pub valid : Valid min_order order_count limit b' lists'
    pub cover_eq :
        (x : ℕ)
        → cover min_order order_count x lists'
          ≡ cover min_order order_count x lists + covers x addr (block_size min_order order)
    pub same_memory : (y : ℕ) → cover min_order order_count y lists' ≡ 0 → b'.memory y ≡ b.memory y

  covers_self : (a s : ℕ) → 0 < s → covers a a s ≡ 1
  covers_self a s h = ground arith

  push-Freed :
      {b : Buddy} {lists : ℕ → List ℕ} (addr order : ℕ)
      → Valid min_order order_count limit b lists
      → IsBlock min_order order_count limit lists addr order
      → Freed addr order lists b (push b addr order) (update lists order (addr ∷ lists order))
  push-Freed {b} {lists} addr order v k = record {
    valid = push-Valid min_order order_count limit v k;
    cover_eq = λ x.
        cover-cons min_order order_count order x addr (block_size min_order order) lists k.order_lt
          refl;
    same_memory = λ y z. push-memory b addr order y (off y z);
  }
    where
      off :
          (y : ℕ)
          → cover min_order order_count y (update lists order (addr ∷ lists order)) ≡ 0
          → (y == addr) ≡ false
      off y z = elim (Bool-cases (y == addr)) [
        | inl e ↦
            let same : y ≡ addr = ground arith in
            absurd (
              omega (
                arith,
                cover-cons min_order order_count order addr addr (block_size min_order order) lists
                    k.order_lt refl,
                covers_self addr (block_size min_order order) (block_size_pos min_order order),
                rw same at z,
              ))
        | inr e ↦ e
      ]

  -- The merged block may be freed at the next order.
  merged-IsBlock :
      {b b' : Buddy} {lists lists' : ℕ → List ℕ} (v : Valid min_order order_count limit b lists)
      (addr order : ℕ)
      → IsBlock min_order order_count limit lists addr order
      → has (buddy_of min_order addr order) (lists order) ≡ true
      → order + 1 < order_count
      → Without v (buddy_of min_order addr order) order b' lists'
      → IsBlock min_order order_count limit lists'
          (min addr (buddy_of min_order addr order))
          (order + 1)
  merged-IsBlock {b} {lists} v addr order k h lt w =
      let s = block_size min_order order in
      let pair = buddy-Pair min_order order addr k.aligned in
      let d = block_size-suc min_order order in
      let nz = Chain-ne_zero b.memory (b.heads order) _ (lists order) (v.chain order) h in
      let low = v.below order (buddy_of min_order addr order) h in
      record {
        order_lt = lt;
        ne_zero = omega (arith, k.ne_zero, nz);
        aligned = rw d pair.aligned;
        below = rw d (omega (arith, low, k.below, pair.next_to));
        disjoint = λ x. rw d (omega (arith, pair.whole x, w.cover_eq x, k.disjoint x));
      }

  -- Freeing the merged block is freeing the block itself.
  unmerge-Freed :
      {b b' b'' : Buddy} {lists lists' lists'' : ℕ → List ℕ}
      (v : Valid min_order order_count limit b lists) (addr order : ℕ)
      → IsBlock min_order order_count limit lists addr order
      → Without v (buddy_of min_order addr order) order b' lists'
      → Freed (min addr (buddy_of min_order addr order)) (order + 1) lists' b' b'' lists''
      → Freed addr order lists b b'' lists''
  unmerge-Freed v addr order k w r =
      let pair = buddy-Pair min_order order addr k.aligned in
      let d = block_size-suc min_order order in
      record {
        valid = r.valid;
        cover_eq = λ x. omega (arith, rw d at (r.cover_eq x), pair.whole x, w.cover_eq x);
        same_memory = λ y z.
            r.same_memory y z
            ∙ w.same_memory y (omega (arith, rw d at (r.cover_eq y), pair.whole y, w.cover_eq y));
      }

  Without-fuel :
      {b b' : Buddy} {lists lists' : ℕ → List ℕ} (v : Valid min_order order_count limit b lists)
      (a order fuel : ℕ)
      → Without v a order b' lists'
      → ((o : ℕ) → length (lists o) < fuel)
      → (o : ℕ) → length (lists' o) < fuel
  Without-fuel v a order fuel w f o = elim (Bool-cases (o == order)) [
    | inl d ↦ let same : o ≡ order = ground arith in rw same (omega (arith, w.shorter, f order))
    | inr d ↦ rw (w.same o d) (f o)
  ]

  abbrev pub FreedBy : ℕ → ℕ → (ℕ → List ℕ) → Buddy → Option Buddy → Type 0
  FreedBy addr order lists b r =
      (b' : Buddy) × (lists' : ℕ → List ℕ) × (r ≡ some b') × Freed addr order lists b b' lists'

  merge_up-Freed :
      (rounds fuel : ℕ) (can_merge : ℕ → ℕ → Bool) {b : Buddy} {lists : ℕ → List ℕ} (addr order : ℕ)
      → order + rounds < order_count
      → Valid min_order order_count limit b lists
      → IsBlock min_order order_count limit lists addr order
      → ((o : ℕ) → length (lists o) < fuel)
      → FreedBy addr order lists b
          (merge_up min_order order_count rounds fuel can_merge b addr order)
  unfolding merge_up
  merge_up-Freed zero fuel can_merge {b} {lists} addr order lt v k f =
      (push b addr order, update lists order (addr ∷ lists order), refl, push-Freed addr order v k)
  merge_up-Freed (suc rounds) fuel can_merge {b} {lists} addr order lt v k f =
      let buddy = buddy_of min_order addr order in
      let stop = push-Freed addr order v k in
      elim (Bool-cases (can_merge buddy order)) [
        | inr m ↦ rw m (push b addr order, update lists order (addr ∷ lists order), refl, stop)
        | inl m ↦ elim (Bool-cases (has buddy (lists order))) [
          | inr h ↦
              let (b', e, v', same) = remove-miss v fuel buddy order k.order_lt (f order) h in
              let r = push-Freed addr order v' k in
              rw (m, e)
                (
                  push b' addr order,
                  update lists order (addr ∷ lists order),
                  refl,
                  record {
                    valid = r.valid;
                    cover_eq = r.cover_eq;
                    same_memory = λ y z. r.same_memory y z ∙ same y (omega (arith, r.cover_eq y));
                  },
                )
          | inl h ↦
              let (b', e, w) = remove-hit v fuel buddy order k.order_lt (f order) h in
              let k' = merged-IsBlock v addr order k h (omega arith) w in
              let (b'', lists'', e'', r) =
                merge_up-Freed rounds fuel can_merge (min addr buddy) (order + 1) (omega arith)
                  w.valid k' (Without-fuel v buddy order fuel w f) in
              rw (m, e) (b'', lists'', e'', unmerge-Freed v addr order k w r)
        ]
      ]

  module _ {b : Buddy} {lists : ℕ → List ℕ} (v : Valid min_order order_count limit b lists) where
    -- In a valid state, for a block that the free memory does not touch, and with more fuel
    -- than any list is long, `free_with` returns, the state stays valid, and the free memory
    -- grows by exactly the block, whatever merges the caller allows. Nothing outside of the
    -- free memory is written.
    pub free_with-Freed :
        (fuel addr order : ℕ) (can_merge : ℕ → ℕ → Bool)
        → IsBlock min_order order_count limit lists addr order
        → ((o : ℕ) → length (lists o) < fuel)
        → FreedBy addr order lists b (free_with min_order order_count fuel b addr order can_merge)
    unfolding free_with
    free_with-Freed fuel addr order can_merge k f =
        let lt = k.order_lt in
        let ok : ltb (max_order min_order order_count) order ≡ false = ground arith in
        rw ok
          (merge_up-Freed (order_count - 1 - order) fuel can_merge addr order (omega arith) v k f)
