-- ===== src/Allocators/Range/Free.antt =====
-- `free` and `add_range` of kernel/src/allocators/range.rs, read through the addresses that the
-- free list covers.
use maram_os.Base.{ℕ, ◌+◌, ◌-◌, ◌≤◌, ◌<◌, ◌≡◌, [], ◌∷◌, arith, All, All-append, u64_mod, sub64}
use maram_os.Allocators.Range.{range, RangeAllocator, free, add_range}
use maram_os.Allocators.Range.Cover.{
  covers, cover, IsBelow, cover-append, cover-coalesce, coalesce-IsBelow,
}

module _ (limit : ℕ) (small : limit < u64_mod) (s : RangeAllocator)
    (wf : All (IsBelow limit) s.free) where
  -- When the ranges and the block end below a limit that fits 64 bits, `free` adds exactly the
  -- addresses of the block, each once, and leaves every range below the limit.
  pub free-cover :
      (base size x : ℕ)
      → base + size ≤ limit
      → All (IsBelow limit) (free s base size).free
        × (cover x (free s base size).free ≡ cover x s.free + covers x (range base size))
  unfolding free
  free-cover base size x h =
      let wf' = All-append (IsBelow limit) s.free (range base size ∷ []) wf (h, tt) in
      (
        coalesce-IsBelow limit small _ wf',
        omega (
          arith,
          cover-coalesce limit small x _ wf',
          cover-append x s.free (range base size ∷ []),
        ),
      )

  -- When the ranges and `end` are below a limit that fits 64 bits, `add_range` adds exactly
  -- the addresses from `start` up to `end`, each once, and leaves every range below the limit.
  pub add_range-cover :
      (start end x : ℕ)
      → start ≤ end
      → end ≤ limit
      → All (IsBelow limit) (add_range s start end).free
        × (cover x (add_range s start end).free
            ≡ cover x s.free + covers x (range start (end - start)))
  unfolding add_range
  add_range-cover start end x h k =
      let size : sub64 end start ≡ end - start = omega arith in
      let bound : start + (end - start) ≤ limit = omega arith in
      rw size (unfold free in free-cover start (end - start) x bound)
