-- ===== src/Tests/Range.antt =====
-- The theorems on kernel/src/allocators/range.rs at a pool of two ranges.
use maram_os.Base.{ℕ, ◌+◌, ◌≤◌, ◌<◌, ◌≡◌, refl, true, false, some, none, [], ◌∷◌, arith, All}
use maram_os.Allocators.Range.{
  range, RangeAllocator, insert_by_start, sort_by_start, merge_adjacent, merge_all, coalesce,
  aligned_start, overruns, carve, allocate_from, allocate, free, advance, keep, keep_all,
  reserve_in, reserve,
}
use maram_os.Allocators.Range.Cover.{covers, cover, IsBelow}
use maram_os.Allocators.Range.Allocate.{Taken, allocate-Taken}
use maram_os.Allocators.Range.Free.{free-cover}
use maram_os.Allocators.Range.Reserve.{Reserved, reserve-Reserved, reserve-total}

abbrev limit : ℕ
limit = 0x10_0000

abbrev pool : RangeAllocator
pool = record { free = range 0x8000 0x1000 ∷ range 0x1800 0x3000 ∷ [] }

pool-IsBelow : All (IsBelow limit) pool.free
pool-IsBelow = omega arith

abbrev taken : RangeAllocator
taken = record { free = range 0x1800 0x800 ∷ range 0x4000 0x800 ∷ range 0x8000 0x1000 ∷ [] }

allocate_runs : allocate pool 0x2000 0x1000 ≡ (some 0x2000, taken)
unfolding allocate allocate_from overruns aligned_start carve coalesce merge_all merge_adjacent
    sort_by_start insert_by_start
allocate_runs = refl

allocate_fails : allocate pool 0x4000 0x1000 ≡ (none, pool)
unfolding allocate allocate_from overruns aligned_start
allocate_fails = refl

allocate-Taken_example : Taken limit 0x2000 0x1000 0x2000 pool.free taken.free
allocate-Taken_example =
    allocate-Taken limit 0x2000 0x1000 (omega arith) (omega arith) pool pool-IsBelow allocate_runs

free-cover_example :
    All (IsBelow limit) (free taken 0x2000 0x2000).free
    × (cover 0x3000 (free taken 0x2000 0x2000).free
        ≡ cover 0x3000 taken.free + covers 0x3000 (range 0x2000 0x2000))
free-cover_example =
    free-cover limit (omega arith) taken (omega arith) 0x2000 0x2000 0x3000 (omega arith)

abbrev reserved : RangeAllocator
reserved = record { free = range 0x1800 0x800 ∷ range 0x3000 0x1800 ∷ range 0x8000 0x1000 ∷ [] }

reserve_runs : reserve pool 0x2000 0x1000 ≡ (true, reserved)
unfolding reserve reserve_in advance keep_all keep coalesce merge_all merge_adjacent sort_by_start
    insert_by_start
reserve_runs = refl

reserve_fails :
    reserve pool 0x7000 0x1800
    ≡ (false, record { free = range 0x1800 0x3000 ∷ range 0x8000 0x1000 ∷ [] })
unfolding reserve reserve_in advance coalesce merge_all merge_adjacent sort_by_start insert_by_start
reserve_fails = refl

reserve-Reserved_example : Reserved limit 0x2000 0x3000 pool.free reserved.free
reserve-Reserved_example =
    reserve-Reserved limit (omega arith) pool pool-IsBelow 0x2000 0x1000 (omega arith) reserve_runs

inside_pool : (x : ℕ) → 0x2000 ≤ x → x < 0x2000 + 0x1000 → 1 ≤ cover x pool.free
inside_pool x lo hi = ground arith

reserve-total_example : (reserve pool 0x2000 0x1000).0 ≡ true
reserve-total_example =
    reserve-total limit (omega arith) pool pool-IsBelow 0x2000 0x1000 (omega arith) inside_pool
