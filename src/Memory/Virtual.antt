-- ===== src/Memory/Virtual.antt =====
-- kernel/src/memory/virt.rs: the virtual memory of an address space. The mapper of the x86_64
-- library, which changes page tables, is a parameter, and so are the sums and differences of its
-- addresses, where `none` is a panic; a page table that is read is a tree. `usize` and addresses are
-- below 2^64.
pub mod Map
use maram_os.Base.{
  ℕ, zero, suc, ◌+◌, ◌-◌, ◌*◌, ◌/◌, ◌%◌, ◌^◌, Bool, true, false, ◌&&◌, Option, none, some, List, [],
  ◌∷◌, ◌++◌, ltb, leb, ◌==◌, if◌then◌else◌, div_ceil,
}
use maram_os.Allocators.Range.{RangeAllocator, new, add_range, allocate, reserve, free}

-- `SIZE_L1` to `SIZE_L4`, which are also the sizes of pages.
abbrev pub size_l1 : ℕ
size_l1 = 4096

abbrev pub size_l2 : ℕ
size_l2 = 2097152

abbrev pub size_l3 : ℕ
size_l3 = 1073741824

abbrev pub size_l4 : ℕ
size_l4 = 549755813888

pub data AddressSpace : Type 0 where
  kernel_space : AddressSpace
  user_space : AddressSpace

pub record VirtualRegion : Type 0 where
  pub start : ℕ
  pub size : ℕ

-- A call of `map_to` for a page.
pub record MapCall : Type 0 where
  pub page_size : ℕ
  pub virt : ℕ
  pub phys : ℕ

pub data Unmapped : Type 0 where
  unmapped : Unmapped
  not_mapped : Unmapped
  other_error : Unmapped

-- The mapper over a page table `S`: whether a call succeeded, and the table after it.
pub record Mapper (S : Type 0) : Type 0 where
  pub map_to : MapCall → ℕ → S → Bool × S
  pub unmap_page : ℕ → ℕ → S → Unmapped × S
  pub clean_up : ℕ → ℕ → S → S

pub record VmemAllocator (S : Type 0) : Type 0 where
  pub page_table : S
  pub allocator : RangeAllocator

-- What is left to map, and from where on.
pub record Left : Type 0 where
  pub rem : ℕ
  pub virt : ℕ
  pub phys : ℕ

-- How many pages of a size `map` makes, and what is left after them.
unfoldable pub count_of : ℕ → Left → ℕ
count_of size l =
    if leb size l.rem && (l.phys % size == 0 && l.virt % size == 0) then l.rem / size else 0

-- Calls of `map_to`, in order, and what is left after them, or `none` if an address panics.
abbrev pub Calls : Type 0
Calls = List MapCall × Option Left

-- What is left has its number of bytes reduced after a loop.
abbrev pub less : ℕ → Calls → Calls
less bytes (calls, none) = (calls, none)
less bytes (calls, some l) = (calls, some (record l { rem = l.rem - bytes }))

abbrev pub and_then : Calls → (Left → Calls) → Calls
and_then (calls, none) next = (calls, none)
and_then (calls, some l) next = (calls ++ (next l).0, (next l).1)

module _ (add_virt add_phys : ℕ → ℕ → Option ℕ) where
  -- `curr_virt += size; curr_phys += size;`.
  unfoldable pub advance : ℕ → Left → Option Left
  advance size l = elim (add_virt l.virt size) [
    | none ↦ none
    | some v ↦ elim (add_phys l.phys size) [
      | none ↦ none
      | some p ↦ some (record { rem = l.rem; virt = v; phys = p })
    ]
  ]

  -- A loop of `map`, when none of its calls fails.
  unfoldable pub calls_of : ℕ → ℕ → Left → Calls
  unfolding advance
  calls_of zero size l = ([], some l)
  calls_of (suc rounds) size l =
      let call : MapCall = record { page_size = size; virt = l.virt; phys = l.phys } in
      elim (advance size l) [
        | none ↦ (call ∷ [], none)
        | some l' ↦ (call ∷ (calls_of rounds size l').0, (calls_of rounds size l').1)
      ]

  unfoldable pub stage : ℕ → Left → Calls
  unfolding calls_of count_of
  stage size l = less (count_of size l * size) (calls_of (count_of size l) size l)

  -- The calls that `map` makes when none fails.
  unfoldable pub map_calls : VirtualRegion → ℕ → Calls
  unfolding stage
  map_calls region phys =
      let all : Left = record { rem = region.size; virt = region.start; phys = phys } in
      and_then (stage size_l3 all) (λ two.
        and_then (stage size_l2 two) (λ three. calls_of (div_ceil three.rem size_l1) size_l1 three))

-- The entries of a page table: an unused one, a page, or a table of the next level.
pub data Entry : Type 0 where
  unused : Entry
  page : Entry
  table : (ℕ → Entry) → Entry

-- `index_to_addr` of the four indices that stand in `number`, 9 bits each.
unfoldable pub index_to_addr : ℕ → ℕ
index_to_addr number =
    if number * 4096 / 2 ^ 47 % 2 == 1 then number * 4096 + 18446462598732840960 else number * 4096

-- A loop over the entries of a table, with the index `i` and the rounds that are left.
abbrev pub each_entry : ℕ → ℕ → (ℕ → List VirtualRegion) → List VirtualRegion
each_entry zero i visit = []
each_entry (suc rounds) i visit = visit i ++ each_entry rounds (i + 1) visit

-- What `find_free_ranges` pushes for an entry of level `suc level`, whose indices are `prefix`.
-- An entry of the lowest level that is used is a page.
unfoldable pub free_regions : ℕ → ℕ → Entry → List VirtualRegion
unfolding index_to_addr
free_regions level prefix unused =
    record { start = index_to_addr (prefix * 512 ^ level); size = 4096 * 512 ^ level } ∷ []
free_regions level prefix page = []
free_regions zero prefix (table entries) = []
free_regions (suc level) prefix (table entries) =
    each_entry 512 0 (λ i. free_regions level (prefix * 512 + i) (entries i))

abbrev pub first_entry : AddressSpace → ℕ
first_entry kernel_space = 256
first_entry user_space = 0

unfoldable pub find_free_ranges : (ℕ → Entry) → AddressSpace → List VirtualRegion
unfolding free_regions
find_free_ranges l4 space = each_entry 256 (first_entry space) (λ i. free_regions 3 i (l4 i))

abbrev pub add_regions : RangeAllocator → List VirtualRegion → RangeAllocator
add_regions a [] = a
add_regions a (r ∷ rest) = add_regions (add_range a r.start ((r.start + r.size) % 2 ^ 64)) rest

-- `align` of `alloc`.
unfoldable pub alloc_align : ℕ → ℕ
alloc_align count =
    if count % 262144 == 0 then size_l3 else if count % 512 == 0 then size_l2 else size_l1

module _ {S : Type 0} (m : Mapper S) (tree : S → ℕ → Entry)
    (add_virt add_phys sub_virt : ℕ → ℕ → Option ℕ) where
  -- `VMemAllocator::new`, where `tree` is what a table reads as.
  unfoldable pub new_allocator : S → AddressSpace → VmemAllocator S
  unfolding find_free_ranges
  new_allocator t space = record {
    page_table = t;
    allocator = add_regions new (find_free_ranges (tree t) space);
  }

  abbrev pub with_present : ℕ → ℕ
  with_present flags = if flags % 2 == 1 then flags else flags + 1

  -- The calls up to the first that fails.
  unfoldable pub run_calls : List MapCall → ℕ → S → Bool × S
  run_calls [] flags t = (true, t)
  run_calls (c ∷ rest) flags t = elim (m.map_to c flags t).0 [
    | true ↦ run_calls rest flags (m.map_to c flags t).1
    | false ↦ (false, (m.map_to c flags t).1)
  ]

  -- `map`; `none` is a panic, behind calls that all succeed.
  unfoldable pub map_region :
      VmemAllocator S → VirtualRegion → ℕ → ℕ → Option (Bool × VmemAllocator S)
  unfolding run_calls map_calls
  map_region a region phys flags =
      let calls = map_calls add_virt add_phys region phys in
      let out = run_calls calls.0 (with_present flags) a.page_table in
      elim out.0 [
        | false ↦ some (false, record a { page_table = out.1 })
        | true ↦ elim calls.1 [
          | none ↦ none
          | some _ ↦ some (true, record a { page_table = out.1 })
        ]
      ]

  -- `if let Ok(..) = mapper.unmap(page)`.
  abbrev pub is_ok : Unmapped → Bool
  is_ok unmapped = true
  is_ok not_mapped = false
  is_ok other_error = false

  -- `PageNotMapped` is no error for a small page.
  abbrev pub is_fine : Unmapped → Bool
  is_fine unmapped = true
  is_fine not_mapped = true
  is_fine other_error = false

  -- The page at `curr` of a size, when it fits and is mapped so.
  unfoldable pub try_unmap : ℕ → ℕ → ℕ → S → Bool × S
  try_unmap size curr end t =
      if leb size (end - curr) && curr % size == 0
      then (is_ok (m.unmap_page size curr t).0, (m.unmap_page size curr t).1)
      else (false, t)

  -- The loop of `unmap`; `none` is a loop that goes on, or a panic.
  unfoldable pub unmap_pages : ℕ → ℕ → ℕ → S → Option (Bool × S)
  unfolding try_unmap
  unmap_pages zero curr end t = if ltb curr end then none else some (true, t)
  unmap_pages (suc fuel) curr end t = elim (ltb curr end) [
    | false ↦ some (true, t)
    | true ↦ elim (try_unmap size_l3 curr end t).0 [
      | true ↦ elim (add_virt curr size_l3) [
        | none ↦ none
        | some next ↦ unmap_pages fuel next end (try_unmap size_l3 curr end t).1
      ]
      | false ↦
          let t3 = (try_unmap size_l3 curr end t).1 in
          elim (try_unmap size_l2 curr end t3).0 [
            | true ↦ elim (add_virt curr size_l2) [
              | none ↦ none
              | some next ↦ unmap_pages fuel next end (try_unmap size_l2 curr end t3).1
            ]
            | false ↦
                let t2 = (try_unmap size_l2 curr end t3).1 in
                elim (is_fine (m.unmap_page size_l1 curr t2).0) [
                  | false ↦ some (false, (m.unmap_page size_l1 curr t2).1)
                  | true ↦ elim (add_virt curr size_l1) [
                    | none ↦ none
                    | some next ↦ unmap_pages fuel next end (m.unmap_page size_l1 curr t2).1
                  ]
                ]
          ]
    ]
  ]

  -- `unmap` behind the loop, up to the last address `end - 1`.
  unfoldable pub finish_unmap :
      VmemAllocator S → VirtualRegion → ℕ → Bool × S → Option (Bool × VmemAllocator S)
  finish_unmap a region end (false, t) = some (false, record a { page_table = t })
  finish_unmap a region end (true, t) = elim (sub_virt end 1) [
    | none ↦ none
    | some last ↦ some (true, record a { page_table = m.clean_up region.start last t })
  ]

  unfoldable pub unmap_region :
      ℕ → VmemAllocator S → VirtualRegion → Option (Bool × VmemAllocator S)
  unfolding unmap_pages finish_unmap
  unmap_region fuel a region = elim (add_virt region.start region.size) [
    | none ↦ none
    | some end ↦ elim (unmap_pages fuel region.start end a.page_table) [
      | none ↦ none
      | some out ↦ finish_unmap a region end out
    ]
  ]

  unfoldable pub alloc_region : VmemAllocator S → ℕ → Option VirtualRegion × VmemAllocator S
  unfolding allocate alloc_align
  alloc_region a count =
      if count == 0
      then (none, a)
      else (let out = allocate a.allocator (count * size_l1) (alloc_align count) in
          (
            elim out.0 [
              | none ↦ none
              | some start ↦ some (record { start = start; size = count * size_l1 })
            ],
            record a { allocator = out.1 },
          ))

  unfoldable pub reserve_region : VmemAllocator S → VirtualRegion → Bool × VmemAllocator S
  unfolding reserve
  reserve_region a region =
      if region.size % 4096 == 0 && region.start % 4096 == 0
      then (let out = reserve a.allocator region.start region.size in
          (out.0, record a { allocator = out.1 }))
      else (false, a)

  unfoldable pub free_region : ℕ → VmemAllocator S → VirtualRegion → Option (Bool × VmemAllocator S)
  unfolding unmap_region free
  free_region fuel a region = elim (unmap_region fuel a region) [
    | none ↦ none
    | some (done, a') ↦ some (
      done,
      if done then record a' { allocator = free a'.allocator region.start region.size } else a',
    )
  ]

  -- `map_fixed`, whose error is that of `map`, or of `free` when this fails too.
  unfoldable pub map_fixed :
      ℕ → VmemAllocator S → VirtualRegion → ℕ → ℕ → Option (Bool × VmemAllocator S)
  unfolding reserve_region map_region free_region
  map_fixed fuel a region phys flags =
      let reserved = reserve_region a region in
      elim reserved.0 [
        | false ↦ some reserved
        | true ↦ elim (map_region reserved.1 region phys flags) [
          | none ↦ none
          | some (true, a') ↦ some (true, a')
          | some (false, a') ↦ elim (free_region fuel a' region) [
            | none ↦ none
            | some (done, freed) ↦ some (false, freed)
          ]
        ]
      ]
