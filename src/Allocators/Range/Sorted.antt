-- ===== src/Allocators/Range/Sorted.antt =====
-- `coalesce` of kernel/src/allocators/range.rs leaves the free list in ascending order.
use maram_os.Base.{
  ℕ, ◌≤◌, List, [], ◌∷◌, arith, leb, leb→le, ◌==◌, Bool-cases, inl, inr, All, add64,
}
use maram_os.Allocators.Range.{
  Range, range, end_of, insert_by_start, sort_by_start, merge_adjacent, merge_all, coalesce,
}

-- Every range of the list starts at `a` or above.
abbrev pub IsFrom : ℕ → List Range → Type 0
IsFrom a = All λ r. a ≤ r.start

abbrev pub IsSorted : List Range → Type 0
IsSorted [] = Unit
IsSorted (r ∷ l) = IsFrom r.start l × IsSorted l

IsFrom-le : (a b : ℕ) (l : List Range) → a ≤ b → IsFrom b l → IsFrom a l
IsFrom-le a b [] h k = tt
IsFrom-le a b (r ∷ l) h k = (omega arith, IsFrom-le a b l h k.1)

insert-IsFrom :
    (a : ℕ) (r : Range) (l : List Range) → a ≤ r.start → IsFrom a l → IsFrom a (insert_by_start r l)
unfolding insert_by_start
insert-IsFrom a r [] h k = (h, tt)
insert-IsFrom a r (s ∷ l) h k = elim (Bool-cases (leb r.start s.start)) [
  | inl e ↦ rw e (h, k)
  | inr e ↦ rw e (k.0, insert-IsFrom a r l h k.1)
]

insert-IsSorted : (r : Range) (l : List Range) → IsSorted l → IsSorted (insert_by_start r l)
unfolding insert_by_start
insert-IsSorted r [] h = (tt, tt)
insert-IsSorted r (s ∷ l) h = elim (Bool-cases (leb r.start s.start)) [
  | inl e ↦ rw e ((leb→le _ _ e, IsFrom-le r.start s.start l (leb→le _ _ e) h.0), h)
  | inr e ↦ rw e (insert-IsFrom s.start r l (ground arith) h.0, insert-IsSorted r l h.1)
]

sort-IsSorted : (l : List Range) → IsSorted (sort_by_start l)
unfolding sort_by_start
sort-IsSorted [] = tt
sort-IsSorted (r ∷ l) = insert-IsSorted r (sort_by_start l) (sort-IsSorted l)

merge-IsFrom :
    (a : ℕ) (c : Range) (l : List Range) → a ≤ c.start → IsFrom a l → IsFrom a (merge_adjacent c l)
unfolding merge_adjacent
merge-IsFrom a c [] h k = (h, tt)
merge-IsFrom a c (n ∷ l) h k = elim (Bool-cases (end_of c == n.start)) [
  | inl e ↦
      rw (e, merge_adjacent) (merge-IsFrom a (range c.start (add64 c.length n.length)) l h k.1)
  | inr e ↦ rw (e, merge_adjacent) (h, merge-IsFrom a n l k.0 k.1)
]

merge-IsSorted : (c : Range) (l : List Range) → IsSorted (c ∷ l) → IsSorted (merge_adjacent c l)
unfolding merge_adjacent
merge-IsSorted c [] h = h
merge-IsSorted c (n ∷ l) h = elim (Bool-cases (end_of c == n.start)) [
  | inl e ↦
      rw (e, merge_adjacent)
        (merge-IsSorted (range c.start (add64 c.length n.length)) l (h.0.1, h.1.1))
  | inr e ↦ rw (e, merge_adjacent) (merge-IsFrom c.start n l h.0.0 h.0.1, merge-IsSorted n l h.1)
]

-- `coalesce` leaves the ranges in the order of their starts, whatever their order was.
pub coalesce-IsSorted : (l : List Range) → IsSorted (coalesce l)
unfolding coalesce merge_all
coalesce-IsSorted l = split (sort_by_start l) (sort-IsSorted l)
  where
    split : (s : List Range) → IsSorted s → IsSorted (merge_all s)
    split [] h = tt
    split (r ∷ s) h = merge-IsSorted r s h
