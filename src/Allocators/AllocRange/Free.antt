-- ===== src/Allocators/AllocRange/Free.antt =====
-- `free_range` of kernel/src/allocators/buddy.rs with a slab, and after `alloc_range`.
use maram_os.Base.{
  ℕ, ◌*◌, ◌^◌, ◌≤◌, ◌<◌, ◌≡◌, true, false, not, List, ◌∷◌, length, Option, none, some, arith, ap,
  ◌∙◌, sym, inl, inr, Bool-cases, ◌==◌, update_self,
}
use maram_os.Allocators.Buddy.{Cell, block_size}
use maram_os.Allocators.Slab.{BlockInfo, PageSlab, set_block, owns}
use maram_os.Allocators.Slab
use maram_os.Allocators.Slab.Ranges.{Range}
use maram_os.Allocators.Slab.Valid.{IsTaken}
use maram_os.Allocators.Slab.Free.{Freed as SlabFreed, free-Freed, IsTaken-in_block, drained}
use maram_os.Allocators.Slab.Find.{find_block-owner, owns-true}
use maram_os.Allocators.AllocRange.{BuddyAllocator, order_of, trailing_zeros, give_back, free_range}
use maram_os.Allocators.AllocRange.Valid.{Valid, Held}
use maram_os.Allocators.AllocRange.Serve.{with_slab-Valid}
use maram_os.Allocators.AllocRange.GiveBack.{
  Released, trailing_zeros-pow, free_block, free_block-Released, stays, leaves, base-IsBlock,
}

module _ (min_order order_count max_blocks limit : ℕ) (few : order_count ≤ 32) (fuel : ℕ)
    {r : BuddyAllocator} {lists : ℕ → List ℕ} {ranges : ℕ → List Range}
    (v : Valid min_order order_count max_blocks limit r lists ranges)
    (enough : (o : ℕ) → length (lists o) < fuel) where
  abbrev Back : ℕ → ℕ → Option BuddyAllocator → Type 0
  Back = Released min_order order_count max_blocks limit r lists ranges

  module _ {i addr count : ℕ} (k : IsTaken r.slab ranges i addr count) where
    info_used :
        (o : Option (ℕ × ℕ) × PageSlab × (ℕ → Cell)) (f : SlabFreed v.slab k o)
        → f.info.used ≡ not (drained v.slab k)
    info_used (o, s', m') f =
        ap (λ (b : BlockInfo). b.used) (sym (update_self r.slab.blocks i f.info))
        ∙ ap (λ (s : PageSlab). (s.blocks i).used) (sym f.slab_eq)
        ∙ f.used_eq

    give_back-Released :
        (o : Option (ℕ × ℕ) × PageSlab × (ℕ → Cell))
        → SlabFreed v.slab k o
        → Back addr (count * 2 ^ min_order) (give_back min_order order_count max_blocks fuel r o)
    unfolding give_back
    give_back-Released (returned, s', m') f =
        let u = info_used (returned, s', m') f in
        let v' =
          with_slab-Valid min_order order_count max_blocks limit v i f.info
            ((addr, count) ∷ ranges i) m' k.used f.base_eq f.total_eq f.outside
            (rw f.slab_eq at f.valid) in
        let h = v.shape i k.used in
        elim (Bool-cases (drained v.slab k)) [
          | inr d ↦
              let none_back : returned ≡ none = rw d at f.returned in
              rw (none_back, f.slab_eq)
                (stays min_order order_count max_blocks limit few fuel v enough k f.info m'
                  (rw d at u) v')
          | inl d ↦
              let some_back : returned
                  ≡ some ((r.slab.blocks i).phys_base, (r.slab.blocks i).total_blocks) =
                rw d at f.returned in
              let zeros : trailing_zeros (r.slab.blocks i).total_blocks ≡ h.order =
                ap trailing_zeros h.total_eq
                ∙ trailing_zeros-pow h.order (omega (arith, h.order_lt)) in
              let block =
                base-IsBlock min_order order_count max_blocks limit few fuel v enough k f.info m' in
              let (b', lists', e, g) =
                free_block min_order order_count max_blocks limit few fuel v' enough
                  (r.slab.blocks i).phys_base h.order block in
              rw (some_back, f.slab_eq, zeros, e)
                (leaves min_order order_count max_blocks limit few fuel v enough k f.info m'
                  (rw d at u) f.base_eq f.total_eq v' b' lists' g
                  (f.whole (λ z. cc (sym some_back ∙ z))))
        ]

    taken-Released :
        Back addr
          (count * 2 ^ min_order)
          (free_range min_order order_count max_blocks true fuel r addr count)
    unfolding free_range
    taken-Released =
        let some_blocks : (count == 0) ≡ false = ground (arith, k.one) in
        let owned = owns-true r.slab addr i (
          find_block-owner r.slab r.buddy.memory ranges addr i v.slab k.used
            (IsTaken-in_block v.slab k)) in
        rw (some_blocks, owned)
          (give_back-Released (Slab.free r.slab r.buddy.memory addr count) (free-Freed v.slab k))

  -- The bytes that are handed out with a range: those of the range in the slab, and the whole block
  -- of the buddy allocator.
  abbrev pub held_bytes :
      {addr count : ℕ} → Held min_order order_count max_blocks limit r lists ranges addr count → ℕ
  held_bytes {addr} {count} (inl h) = count * 2 ^ min_order
  held_bytes {addr} {count} (inr h) = block_size min_order (order_of count)

  -- In a valid state of at most 32 orders, with more fuel than any free list is long, `free_range`
  -- of a range of at least one block that is handed out ends and keeps the state valid, in the
  -- buddy allocator and in the slab. Exactly the bytes that were handed out become free: those of
  -- the range if it is of the slab, the whole block if it is one of the buddy allocator. All that
  -- was free stays free.
  pub free_range-Released :
      (addr count : ℕ)
      → 1 ≤ count
      → (h : Held min_order order_count max_blocks limit r lists ranges addr count)
      → Back addr
          (held_bytes h)
          (free_range min_order order_count max_blocks true fuel r addr count)
  free_range-Released addr count one (inl (i, k)) = taken-Released k
  free_range-Released addr count one (inr (k, apart)) =
      free_block-Released min_order order_count max_blocks limit few fuel v enough addr count one k
        apart
