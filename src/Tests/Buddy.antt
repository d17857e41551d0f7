-- ===== src/Tests/Buddy.antt =====
-- The theorems on kernel/src/allocators/buddy.rs at three orders of 16, 32 and 64 bytes.
use maram_os.Base.{ℕ, ◌<◌, ◌≡◌, refl, true, some, List, [], ◌∷◌, arith, length, update}
use maram_os.Allocators.Buddy.{Buddy, push, pop, find_order, split_down, alloc, free_with}
use maram_os.Allocators.Buddy.Cover.{cover}
use maram_os.Allocators.Buddy.Valid.{Valid, IsBlock, push-Valid}
use maram_os.Allocators.Buddy.Alloc.{Allocated, alloc-Allocated}
use maram_os.Allocators.Buddy.Free.{FreedBy, free_with-Freed}

abbrev pub empty : Buddy
empty = record { heads = λ _. 0; memory = λ _. record { next = 0; count = 0 } }

abbrev pub no_blocks : ℕ → List ℕ
no_blocks _ = []

pub empty-Valid : Valid 4 3 256 empty no_blocks
unfolding cover
empty-Valid = record {
  chain = λ o. refl;
  apart = λ o o' x h h'. cc;
  above = λ o h. refl;
  aligned = λ o x h. absurd (cc);
  below = λ o x h. absurd (cc);
  disjoint = λ x. omega arith;
}

pub first-IsBlock : IsBlock 4 3 256 no_blocks 64 2
unfolding cover
first-IsBlock = record {
  order_lt = omega arith;
  ne_zero = λ e. omega arith;
  aligned = (1, refl);
  below = omega arith;
  disjoint = λ x. ground arith;
}

abbrev pub one : Buddy
one = push empty 64 2

abbrev pub one_block : ℕ → List ℕ
one_block = update no_blocks 2 (64 ∷ [])

pub one-Valid : Valid 4 3 256 one one_block
one-Valid = push-Valid 4 3 256 empty-Valid first-IsBlock

alloc_runs : alloc 4 3 one 0 ≡ (some 64, (alloc 4 3 one 0).1)
unfolding alloc find_order pop push split_down update
alloc_runs = refl

alloc-Allocated_example :
    (lists' : ℕ → List ℕ) × Allocated 4 3 256
      (omega arith)
      64
      0
      one_block
      one
      (alloc 4 3 one 0).1
      lists'
alloc-Allocated_example = alloc-Allocated 4 3 256 (omega arith) one-Valid 0 alloc_runs

pub short_lists : (o : ℕ) → length (no_blocks o) < 2
short_lists o = omega arith

free_with-Freed_example :
    FreedBy 4 3 256 64 2 no_blocks empty (free_with 4 3 2 empty 64 2 (λ _ _. true))
free_with-Freed_example =
    free_with-Freed 4 3 256 empty-Valid 2 64 2 (λ _ _. true) first-IsBlock short_lists
