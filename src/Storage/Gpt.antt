-- ===== src/Storage/Gpt.antt =====
-- kernel/src/drivers/storage/gpt: the checks of a GPT header and the scan of the partition entries.
-- The checksum of the header is a parameter, as are the entries that the pages read from the
-- drive hold at an offset; `none` past the end of these pages. A name is a list of UTF-16 words.
pub mod Header
pub mod Entries
use maram_os.Base.{
  ℕ, zero, suc, ◌+◌, ◌-◌, ◌*◌, ◌/◌, ◌%◌, ◌^◌, ◌≤◌, ◌<◌, ◌≡◌, ◌≢◌, refl, Bool, true, false, ◌||◌,
  ◌&&◌, ◌⊎◌, min, Option, none, some, List, [], ◌∷◌, ◌++◌, arith, ltb, leb, ◌==◌, ==_iff, ◌∙◌, ap,
  sym, subst, ltb→lt, if◌then◌else◌, update, all_below, all_below_sound, Bool-cases, Option-cases,
  inl, inr, All, All-get_elem?, All-set, length-set, set, length, get_elem?, get_elem?-set_self,
  get_elem?-set_ne, get_elem?_below, sub64, u64_mod, checked_sub, checked_add, add64, div_ceil, not,
  append_assoc, append-nil, length-append,
}

pub record Guid : Type 0 where
  pub time_low : ℕ
  pub time_mid : ℕ
  pub time_high_ver : ℕ
  pub clock_seq : ℕ
  pub node : ℕ

abbrev pub zero_guid : Guid
zero_guid = record { time_low = 0; time_mid = 0; time_high_ver = 0; clock_seq = 0; node = 0 }

unfoldable pub same_guid : Guid → Guid → Bool
same_guid a b =
    (a.time_low == b.time_low)
    && (a.time_mid == b.time_mid)
    && (a.time_high_ver == b.time_high_ver)
    && (a.clock_seq == b.clock_seq)
    && (a.node == b.node)

pub record GptHeader : Type 0 where
  pub signature : ℕ
  pub revision : ℕ
  pub size : ℕ
  pub header_crc : ℕ
  pub curr_block : ℕ
  pub backup_block : ℕ
  pub first_usable : ℕ
  pub last_usable : ℕ
  pub disk_guid : Guid
  pub entry_start : ℕ
  pub entry_count : ℕ
  pub entry_byte_count : ℕ
  pub entry_array_crc : ℕ

pub record PartitionEntry : Type 0 where
  pub type_guid : Guid
  pub partition_guid : Guid
  pub start_block : ℕ
  pub end_block : ℕ
  pub flags : ℕ
  pub name : List ℕ

pub data PartitionType : Type 0 where
  efi : PartitionType
  lemon_fs : PartitionType
  unknown : Guid → PartitionType

abbrev pub efi_guid : Guid
efi_guid = record {
  time_low = 0xC12A7328;
  time_mid = 0xF81F;
  time_high_ver = 0x11D2;
  clock_seq = 0xBA4B;
  node = 0xA0C93EC93B;
}

abbrev pub lemon_guid : Guid
lemon_guid = record {
  time_low = 0x8CBD0D4E;
  time_mid = 0xFE62;
  time_high_ver = 0x49CC;
  clock_seq = 0xA982;
  node = 0xFBD6F69ED888;
}

unfoldable pub from_guid : Guid → PartitionType
unfolding same_guid
from_guid guid =
    if same_guid guid lemon_guid
    then lemon_fs
    else if same_guid guid efi_guid
    then efi
    else unknown guid

unfoldable pub guid_of : PartitionType → Guid
guid_of efi = efi_guid
guid_of lemon_fs = lemon_guid
guid_of (unknown guid) = guid

pub record Partition : Type 0 where
  pub start : ℕ
  pub size_blocks : ℕ
  pub name : List ℕ
  pub type_ : PartitionType
  pub guid : Guid

-- "EFI PART" in the order of the bytes in memory.
abbrev pub gpt_sig : ℕ
gpt_sig = 0x4546492050415254

-- `a.checked_add(b) > Some(c)`; `None` is below every `Some`.
abbrev past : Option ℕ → ℕ → Bool
past none c = false
past (some s) c = ltb c s

-- `check_gpt_header`, for a drive of `block_count` blocks of `block_size` bytes, where `crc` is
-- the checksum of the header with its own field zeroed.
unfoldable pub check_gpt_header : ℕ → ℕ → ℕ → GptHeader → Bool → Bool
check_gpt_header block_count block_size crc h is_backup =
    let last = sub64 block_count 1 in
    let expected = if is_backup then last else 1 in
    let alternate = if is_backup then 1 else last in
    let total = h.entry_count * h.entry_byte_count in
    if not (h.signature == gpt_sig) || ltb h.size 92 || ltb block_size h.size
    then false
    else if not (h.curr_block == expected)
    then false
    else if not (crc == h.header_crc)
    then false
    else if ltb h.entry_count 128
    then false
    else if ltb h.entry_byte_count 128
    then false
    else if leb u64_mod total
    then false
    else if ltb h.last_usable h.first_usable || ltb block_count h.last_usable || leb h.entry_start 1
    then false
    else if not (h.backup_block == alternate)
    then false
    else not (past (checked_add h.entry_start (div_ceil total block_size)) h.first_usable)

-- `name_buf.iter().position(|&x| x == 0).unwrap_or(36)` and the slice.
unfoldable pub name_of : List ℕ → List ℕ
name_of [] = []
name_of (c ∷ rest) = let more = name_of rest in if c == 0 then [] else c ∷ more

unfoldable pub partition_of : PartitionEntry → Partition
unfolding from_guid name_of
partition_of e = record {
  start = e.start_block;
  size_blocks = add64 (sub64 e.end_block e.start_block) 1;
  name = name_of e.name;
  type_ = from_guid e.type_guid;
  guid = e.partition_guid;
}

-- Whether an entry starts before the end of the last partition taken.
unfoldable pub overlaps : Option Partition → PartitionEntry → Bool
overlaps none e = false
overlaps (some p) e = ltb e.start_block (add64 p.start p.size_blocks)

unfoldable pub is_bad : GptHeader → PartitionEntry → Bool
is_bad h e =
    ltb e.start_block h.first_usable
    || ltb h.last_usable e.end_block
    || ltb e.end_block e.start_block

unfoldable pub last_of : List Partition → Option Partition
last_of [] = none
last_of (p ∷ []) = some p
last_of (p ∷ q ∷ rest) = last_of (q ∷ rest)

-- The loop over the entries, on fuel; `none` when it runs out. A skipped entry is looked at again:
-- `continue` leaves `offset` as it is.
unfoldable pub scan_entries :
    ℕ → (ℕ → Option PartitionEntry) → GptHeader → ℕ → List Partition → Option (List Partition)
unfolding overlaps is_bad partition_of last_of same_guid
scan_entries zero read h offset res = none
scan_entries (suc fuel) read h offset res = elim (read offset) [
  | none ↦ some res
  | some e ↦
      let again = scan_entries fuel read h offset res in
      let next =
        scan_entries fuel read h (add64 offset h.entry_byte_count) (res ++ partition_of e ∷ []) in
      if same_guid e.type_guid zero_guid
      then some res
      else if overlaps (last_of res) e
      then again
      else if is_bad h e
      then again
      else next
]
