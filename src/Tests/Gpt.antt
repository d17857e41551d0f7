-- ===== src/Tests/Gpt.antt =====
-- Runs of the checks of kernel/src/drivers/storage/gpt.
use maram_os.Base.{
  ℕ, ◌+◌, ◌*◌, ◌-◌, ◌≤◌, ◌<◌, ◌≡◌, ◌⊎◌, inl, refl, true, false, Option, none, some, [], ◌∷◌, arith,
  ◌==◌, if◌then◌else◌, u64_mod, div_ceil,
}
use maram_os.Storage.Gpt.{
  GptHeader, PartitionEntry, gpt_sig, zero_guid, efi_guid, check_gpt_header, scan_entries,
  partition_of, same_guid, overlaps, is_bad, last_of,
}
use maram_os.Storage.Gpt.Header.{check_gpt_header_lem}
use maram_os.Storage.Gpt.Entries.{
  Disjoint, scan_entries-Fits, scan_entries-skipped, partitions-Disjoint,
}

abbrev header : GptHeader
header = record {
  signature = gpt_sig;
  revision = 65536;
  size = 92;
  header_crc = 7;
  curr_block = 1;
  backup_block = 999;
  first_usable = 34;
  last_usable = 966;
  disk_guid = efi_guid;
  entry_start = 2;
  entry_count = 128;
  entry_byte_count = 128;
  entry_array_crc = 5;
}

abbrev entry : ℕ → ℕ → PartitionEntry
entry start end = record {
  type_guid = efi_guid;
  partition_guid = zero_guid;
  start_block = start;
  end_block = end;
  flags = 0;
  name = 97 ∷ 0 ∷ [];
}

-- Two partitions, then the end of the pages.
abbrev pages : ℕ → Option PartitionEntry
pages n = if n == 0 then some (entry 40 100) else if n == 128 then some (entry 101 900) else none

-- An entry past the usable blocks.
abbrev bad_pages : ℕ → Option PartitionEntry
bad_pages n = some (entry 40 5000)

accepts : check_gpt_header 1000 512 7 header false ≡ true
unfolding check_gpt_header
accepts = refl

-- The array of entries of this header would end past the last 64-bit number.
overflow_accepted :
    check_gpt_header 1000 512 7 (record header { entry_start = u64_mod - 1 }) false ≡ true
unfolding check_gpt_header
overflow_accepted = refl

check_gpt_header_lem_example :
    (header.signature ≡ gpt_sig)
    × (7 ≡ header.header_crc)
    × (header.size ≤ 512)
    × (header.curr_block ≡ 1)
    × (header.backup_block ≡ 999)
    × (header.first_usable ≤ header.last_usable)
    × (header.last_usable ≤ 1000)
    × (128 ≤ header.entry_count)
    × (128 ≤ header.entry_byte_count)
    × (1 < header.entry_start)
    × ((u64_mod ≤ header.entry_start + div_ceil (header.entry_count * header.entry_byte_count) 512)
        ⊎ (header.entry_start * 512 + header.entry_count * header.entry_byte_count
            ≤ header.first_usable * 512))
check_gpt_header_lem_example = check_gpt_header_lem 1000 512 7 header false (omega arith) accepts

scan_entries-Fits_example :
    scan_entries 3 pages header 0 []
    ≡ some (partition_of (entry 40 100) ∷ partition_of (entry 101 900) ∷ [])
unfolding same_guid overlaps is_bad partition_of last_of
scan_entries-Fits_example =
    scan_entries-Fits (entry 40 100 ∷ entry 101 900 ∷ []) pages header 0 0 []
      (refl, refl, (refl, refl, inl refl)) (refl, refl, (refl, refl, tt))

scan_entries-skipped_example : scan_entries 1000 bad_pages header 0 [] ≡ none
unfolding same_guid overlaps is_bad last_of
scan_entries-skipped_example =
    scan_entries-skipped 1000 bad_pages header 0 [] (entry 40 5000) refl refl refl

partitions-Disjoint_example :
    Disjoint 34 966 (partition_of (entry 40 100) ∷ partition_of (entry 101 900) ∷ [])
unfolding overlaps is_bad partition_of
partitions-Disjoint_example =
    partitions-Disjoint header (entry 40 100 ∷ entry 101 900 ∷ []) (omega arith) (omega arith)
      (refl, refl, (refl, refl, tt))
