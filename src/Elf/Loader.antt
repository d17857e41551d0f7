-- ===== src/Elf/Loader.antt =====
-- kernel/src/elf/loader.rs: which binaries are loaded, and where their segments go. The parsed
-- file header and program headers come from a library, as do the numbers that it names (`Abi`) and
-- the test whether an address is canonical. Reading the file and the page tables are left out.
pub mod Segments
use maram_os.Base.{
  ℕ, zero, suc, ◌+◌, ◌-◌, ◌*◌, ◌/◌, ◌%◌, ◌^◌, ◌≤◌, ◌<◌, ◌≡◌, ◌≢◌, refl, Bool, true, false, ◌||◌,
  ◌&&◌, ◌⊎◌, min, Option, none, some, List, [], ◌∷◌, ◌++◌, arith, ltb, leb, ◌==◌, ==_iff, ◌∙◌, ap,
  sym, subst, ltb→lt, if◌then◌else◌, update, all_below, all_below_sound, Bool-cases, Option-cases,
  inl, inr, All, All-get_elem?, All-set, length-set, set, length, get_elem?, get_elem?-set_self,
  get_elem?-set_ne, get_elem?_below, sub64, u64_mod, checked_sub, add64, not, next_multiple_of,
  append_assoc, append-nil, length-append,
}

pub data LoaderError : Type 0 where
  bad_class : LoaderError
  bad_target : LoaderError
  bad_type : LoaderError
  no_segments : LoaderError
  overlapping_segments : LoaderError
  bad_segments : LoaderError
  out_of_bounds : LoaderError
  invalid_mapping : LoaderError

pub data Result {ℓ} (A : Type ℓ) : Type ℓ where
  ok : A → Result A
  err : LoaderError → Result A

pub record Abi : Type 0 where
  pub elf64 : ℕ
  pub em_x86_64 : ℕ
  pub et_exec : ℕ
  pub et_dyn : ℕ
  pub pt_load : ℕ

pub record FileHeader : Type 0 where
  pub class : ℕ
  pub e_machine : ℕ
  pub e_type : ℕ
  pub e_entry : ℕ

pub record ProgramHeader : Type 0 where
  pub p_type : ℕ
  pub p_flags : ℕ
  pub p_offset : ℕ
  pub p_vaddr : ℕ
  pub p_filesz : ℕ
  pub p_memsz : ℕ

pub record PageFlags : Type 0 where
  pub no_execute : Bool
  pub writable : Bool
  pub user_accessible : Bool

pub record Segment : Type 0 where
  pub virt_addr : ℕ
  pub start : ℕ
  pub end : ℕ
  pub file_start : ℕ
  pub file_end : ℕ
  pub mem_size : ℕ
  pub page_offset : ℕ
  pub flags : PageFlags
  pub executable : Bool

abbrev pub page_size : ℕ
page_size = 4096

abbrev pub user_end : ℕ
user_end = 0x0000_8000_0000_0000

abbrev pub page_flags : ℕ → PageFlags
page_flags flags = record {
  no_execute = flags % 2 == 0;
  writable = flags / 2 % 2 == 1;
  user_accessible = true;
}

-- `parse_header`: where the binary is loaded.
unfoldable pub parse_header : Abi → FileHeader → Result ℕ
parse_header abi h =
    if not (h.class == abi.elf64)
    then err bad_class
    else if not (h.e_machine == abi.em_x86_64)
    then err bad_target
    else if not (h.e_type == abi.et_exec) && not (h.e_type == abi.et_dyn)
    then err bad_type
    else if h.e_type == abi.et_exec
    then ok 0
    else ok 0x400_000

-- One round of the loop of `parse_segments`; `ok none` goes on to the next header.
unfoldable pub parse_segment : Abi → ProgramHeader → ℕ → ℕ → Result (Option Segment)
parse_segment abi p data_len base =
    if not (p.p_type == abi.pt_load)
    then ok none
    else if ltb p.p_memsz p.p_filesz
    then err bad_segments
    else if p.p_memsz == 0
    then ok none
    else if leb u64_mod (p.p_offset + p.p_filesz)
    then err out_of_bounds
    else if ltb data_len (p.p_offset + p.p_filesz)
    then err out_of_bounds
    else if leb u64_mod (base + p.p_vaddr)
    then err out_of_bounds
    else if leb u64_mod (base + p.p_vaddr + p.p_memsz)
    then err out_of_bounds
    else if leb u64_mod (next_multiple_of (base + p.p_vaddr + p.p_memsz) page_size)
    then err out_of_bounds
    else if ltb user_end (next_multiple_of (base + p.p_vaddr + p.p_memsz) page_size)
    then err out_of_bounds
    else ok (
        some (record {
          virt_addr = base + p.p_vaddr;
          start = (base + p.p_vaddr) / page_size * page_size;
          end = next_multiple_of (base + p.p_vaddr + p.p_memsz) page_size;
          file_start = p.p_offset;
          file_end = p.p_offset + p.p_filesz;
          mem_size = p.p_memsz;
          page_offset = base + p.p_vaddr - (base + p.p_vaddr) / page_size * page_size;
          flags = page_flags p.p_flags;
          executable = not (page_flags p.p_flags).no_execute;
        }))

unfoldable pub parse_each : Abi → List ProgramHeader → ℕ → ℕ → Result (List Segment)
unfolding parse_segment
parse_each abi [] data_len base = ok []
parse_each abi (p ∷ rest) data_len base = elim (parse_segment abi p data_len base) [
  | err e ↦ err e
  | ok none ↦ parse_each abi rest data_len base
  | ok (some s) ↦ elim (parse_each abi rest data_len base) [
    | err e ↦ err e
    | ok more ↦ ok (s ∷ more)
  ]
]

-- `parse_segments`; `none` when the file has no program headers.
unfoldable pub parse_segments : Abi → Option (List ProgramHeader) → ℕ → ℕ → Result (List Segment)
unfolding parse_each
parse_segments abi none data_len base = err no_segments
parse_segments abi (some phdrs) data_len base = elim (parse_each abi phdrs data_len base) [
  | err e ↦ err e
  | ok [] ↦ err no_segments
  | ok (s ∷ rest) ↦ ok (s ∷ rest)
]

-- `sort_unstable_by_key`; segments with one start, in whatever order, overlap.
unfoldable pub insert_segment : Segment → List Segment → List Segment
insert_segment s [] = s ∷ []
insert_segment s (t ∷ rest) =
    if leb s.start t.start then s ∷ t ∷ rest else t ∷ insert_segment s rest

unfoldable pub sort_segments : List Segment → List Segment
unfolding insert_segment
sort_segments [] = []
sort_segments (s ∷ rest) = insert_segment s (sort_segments rest)

-- The loop over `windows(2)`.
unfoldable pub apart : List Segment → Bool
apart [] = true
apart (s ∷ []) = true
apart (s ∷ t ∷ rest) = if ltb t.start s.end then false else apart (t ∷ rest)

unfoldable pub check_no_overlap : List Segment → Result (List Segment)
unfolding sort_segments apart
check_no_overlap segments =
    if apart (sort_segments segments) then ok (sort_segments segments) else err overlapping_segments

-- `segments.iter().any(..)`.
unfoldable pub in_exec : ℕ → List Segment → Bool
in_exec entry [] = false
in_exec entry (s ∷ rest) =
    (s.executable && leb s.virt_addr entry && ltb entry (add64 s.virt_addr s.mem_size))
    || in_exec entry rest

unfoldable pub validate_entry : (ℕ → Bool) → ℕ → ℕ → List Segment → Result ℕ
unfolding in_exec
validate_entry is_canonical entry base segments =
    if leb u64_mod (base + entry)
    then err out_of_bounds
    else if not (in_exec (base + entry) segments)
    then err invalid_mapping
    else if is_canonical (base + entry)
    then ok (base + entry)
    else err invalid_mapping

-- `load` up to the mapping: the entry, and the segments in the order in which they are mapped.
unfoldable pub load :
    Abi → (ℕ → Bool) → FileHeader → Option (List ProgramHeader) → ℕ → Result (ℕ × List Segment)
unfolding parse_header parse_segments check_no_overlap validate_entry
load abi is_canonical h phdrs data_len = elim (parse_header abi h) [
  | err e ↦ err e
  | ok base ↦ elim (parse_segments abi phdrs data_len base) [
    | err e ↦ err e
    | ok parsed ↦ elim (check_no_overlap parsed) [
      | err e ↦ err e
      | ok segments ↦ elim (validate_entry is_canonical h.e_entry base segments) [
        | err e ↦ err e
        | ok entry ↦ ok (entry, segments)
      ]
    ]
  ]
]

-- `map_segment`: the byte at each offset of its pages, where `bytes` is the file.
unfoldable pub page_bytes : Segment → (ℕ → ℕ) → ℕ → ℕ
page_bytes s bytes i =
    if leb s.page_offset i && ltb i (s.page_offset + (s.file_end - s.file_start))
    then bytes (s.file_start + (i - s.page_offset))
    else 0
