-- ===== src/Tests/Elf.antt =====
-- A run of the loader of kernel/src/elf/loader.rs.
use maram_os.Base.{◌≡◌, refl, true, some, [], ◌∷◌, All}
use maram_os.Elf.Loader.{
  Abi, FileHeader, ProgramHeader, Segment, ok, page_flags, parse_header, parse_segment, parse_each,
  parse_segments, insert_segment, sort_segments, apart, check_no_overlap, in_exec, validate_entry,
  load,
}
use maram_os.Elf.Loader.Segments.{IsPlaced, Ordered, Executes, load_lem}

abbrev abi : Abi
abi = record { elf64 = 2; em_x86_64 = 62; et_exec = 2; et_dyn = 3; pt_load = 1 }

abbrev header : FileHeader
header = record { class = 2; e_machine = 62; e_type = 2; e_entry = 4200 }

abbrev text : ProgramHeader
text = record {
  p_type = 1;
  p_flags = 5;
  p_offset = 100;
  p_vaddr = 4196;
  p_filesz = 50;
  p_memsz = 60;
}

abbrev segment : Segment
segment = record {
  virt_addr = 4196;
  start = 4096;
  end = 8192;
  file_start = 100;
  file_end = 150;
  mem_size = 60;
  page_offset = 100;
  flags = page_flags 5;
  executable = true;
}

loads : load abi (λ a. true) header (some (text ∷ [])) 200 ≡ ok (4200, segment ∷ [])
unfolding load parse_header parse_segment parse_each parse_segments insert_segment sort_segments
    apart check_no_overlap in_exec validate_entry
loads = refl

load_lem_example :
    All (IsPlaced 200) (segment ∷ [])
    × Ordered (segment ∷ [])
    × Executes 4200 (segment ∷ [])
    × (true ≡ true)
load_lem_example = load_lem abi (λ a. true) header (some (text ∷ [])) 200 4200 (segment ∷ []) loads
