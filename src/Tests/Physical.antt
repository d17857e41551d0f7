-- ===== src/Tests/Physical.antt =====
-- Runs of the page allocator of kernel/src/memory/physical.rs.
use maram_os.Base.{ℕ, ◌+◌, ◌≤◌, ◌≡◌, refl, true, false, some, List, [], ◌∷◌, All, arith}
use maram_os.Allocators.Buddy.{Buddy}
use maram_os.Allocators.Buddy.Cover.{cover}
use maram_os.Allocators.Buddy.Valid.{Valid}
use maram_os.Memory.Physical.{min_order, order_count, Entry, init}
use maram_os.Memory.Physical.Init.{Ready, IsPlaced, pages_at, init-Ready}
use maram_os.Tests.Buddy.{empty, no_blocks}

-- Three pages from 0x5000 on, behind an entry that is not usable.
abbrev entries : List Entry
entries =
    record { base = 4096; length = 4096; usable = false }
    ∷ record { base = 20000; length = 12800; usable = true }
    ∷ []

no_pages-Valid : Valid min_order order_count 1048576 empty no_blocks
unfolding cover
no_pages-Valid = record {
  chain = λ o. refl;
  apart = λ o o' x h h'. cc;
  above = λ o h. refl;
  aligned = λ o x h. absurd (cc);
  below = λ o x h. absurd (cc);
  disjoint = λ x. omega arith;
}

entries-IsPlaced : All (IsPlaced 1048576) entries
entries-IsPlaced = ((omega arith, omega arith), ((omega arith, omega arith), tt))

entries_apart : (x : ℕ) → pages_at x entries + cover min_order order_count x no_blocks ≤ 1
unfolding cover
entries_apart x = ground arith

init-Ready_example :
    (b' : Buddy) × (lists' : ℕ → List ℕ) × (init 257 empty entries ≡ some b')
    × Ready 1048576 (λ x. pages_at x entries) no_blocks b' lists'
init-Ready_example =
    init-Ready 1048576 257 (omega arith) (omega arith) entries no_pages-Valid entries-IsPlaced
      entries_apart
