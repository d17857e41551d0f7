-- ===== src/Allocators/Range.antt =====
-- kernel/src/allocators/range.rs: the allocator of address ranges behind the virtual memory
-- manager. `usize` arithmetic wraps, as in the release build that xtask makes.
pub mod Allocate
pub mod Cover
pub mod Free
pub mod Reserve
pub mod Sorted
use maram_os.Base.{
  ℕ, ◌+◌, ◌%◌, Bool, true, false, ◌||◌, Option, none, some, List, [], ◌∷◌, ◌++◌, ltb, leb, ◌==◌,
  if◌then◌else◌, u64_mod, add64, sub64, checked_add, next_multiple_of,
}

pub record Range : Type 0 where
  pub start : ℕ
  pub length : ℕ

abbrev pub range : ℕ → ℕ → Range
range s l = record { start = s; length = l }

pub record RangeAllocator : Type 0 where
  pub free : List Range

abbrev pub new : RangeAllocator
new = record { free = [] }

-- `range.start + range.length`.
abbrev pub end_of : Range → ℕ
end_of r = add64 r.start r.length

-- `sort_by_key(|r| r.start)`: the stable sort of the standard library.
unfoldable pub insert_by_start : Range → List Range → List Range
insert_by_start r [] = r ∷ []
insert_by_start r (s ∷ rest) =
    if leb r.start s.start then r ∷ s ∷ rest else s ∷ insert_by_start r rest

unfoldable pub sort_by_start : List Range → List Range
sort_by_start [] = []
sort_by_start (r ∷ rest) = insert_by_start r (sort_by_start rest)

-- The `while` of `coalesce`, with `curr` at index `i` and the ranges behind it.
unfoldable pub merge_adjacent : Range → List Range → List Range
merge_adjacent curr [] = curr ∷ []
merge_adjacent curr (next ∷ rest) = elim (end_of curr == next.start) [
  | true ↦ merge_adjacent (range curr.start (add64 curr.length next.length)) rest
  | false ↦ curr ∷ merge_adjacent next rest
]

unfoldable pub merge_all : List Range → List Range
merge_all [] = []
merge_all (r ∷ rest) = merge_adjacent r rest

unfoldable pub coalesce : List Range → List Range
coalesce free = merge_all (sort_by_start free)

unfoldable pub aligned_start : Range → ℕ → ℕ
aligned_start r align = next_multiple_of r.start align % u64_mod

-- What a block of `size` at `at` leaves of `r`, pushed behind `rest`.
unfoldable pub carve : Range → ℕ → ℕ → List Range → List Range
carve r at size rest =
    let tail = sub64 (end_of r) (add64 at size) in
    let front = if ltb r.start at then rest ++ range r.start (sub64 at r.start) ∷ [] else rest in
    if tail == 0 then front else front ++ range (add64 at size) tail ∷ []

-- `aligned_start + size > range.start + range.length`.
unfoldable pub overruns : Range → ℕ → ℕ → Bool
unfolding aligned_start
overruns r size align = ltb (end_of r) (add64 (aligned_start r align) size)

-- The `for` of `allocate`, with the ranges before index `i` in `seen`.
unfoldable pub allocate_from : List Range → List Range → ℕ → ℕ → Option (ℕ × List Range)
allocate_from seen [] size align = none
allocate_from seen (r ∷ rest) size align =
    let later = allocate_from (seen ++ r ∷ []) rest size align in
    if overruns r size align
    then later
    else some
        (aligned_start r align, coalesce (carve r (aligned_start r align) size (seen ++ rest)))

-- The address, if there is one, and the state after the call.
unfoldable pub allocate : RangeAllocator → ℕ → ℕ → Option ℕ × RangeAllocator
allocate s size align = elim (allocate_from [] s.free size align) [
  | none ↦ (none, s)
  | some (at, free) ↦ (some at, record { free = free })
]

unfoldable pub free : RangeAllocator → ℕ → ℕ → RangeAllocator
free s base size = record { free = coalesce (s.free ++ range base size ∷ []) }

unfoldable pub add_range : RangeAllocator → ℕ → ℕ → RangeAllocator
add_range s start end = record { free = coalesce (s.free ++ range start (sub64 end start) ∷ []) }

-- The cursor loop of `reserve`: the cursor at its end, or `none` for the early `return false`.
unfoldable pub advance : ℕ → ℕ → List Range → Option ℕ
advance cursor end [] = some cursor
advance cursor end (r ∷ rest) =
    let skip = advance cursor end rest in
    let next = advance (end_of r) end rest in
    if leb (end_of r) cursor
    then skip
    else if ltb cursor r.start
    then none
    else if leb end (end_of r)
    then some (end_of r)
    else next

-- What is kept of one range when `start .. end` is taken out.
unfoldable pub keep : ℕ → ℕ → Range → List Range
keep start end r =
    if leb (end_of r) start || leb end r.start
    then r ∷ []
    else ((if ltb r.start start then range r.start (sub64 start r.start) ∷ [] else [])
        ++ (if ltb end (end_of r) then range end (sub64 (end_of r) end) ∷ [] else []))

unfoldable pub keep_all : ℕ → ℕ → List Range → List Range
keep_all start end [] = []
keep_all start end (r ∷ rest) = keep start end r ++ keep_all start end rest

-- `reserve` behind its first `coalesce`.
unfoldable pub reserve_in : ℕ → ℕ → List Range → Bool × List Range
reserve_in start end free = elim (advance start end free) [
  | none ↦ (false, free)
  | some cursor ↦
      if ltb cursor end then (false, free) else (true, coalesce (keep_all start end free))
]

unfoldable pub reserve : RangeAllocator → ℕ → ℕ → Bool × RangeAllocator
reserve s start size = elim (checked_add start size) [
  | none ↦ (false, s)
  | some end ↦
      if start == end
      then (true, s)
      else (let (done, free') = reserve_in start end (coalesce s.free) in
          (done, record { free = free' }))
]
