-- ===== src/Fs/Store.antt =====
-- What the modules of kernel/src/fs/lemonfs share: the blocks on the disk, the errors, and code
-- that reads and writes the disk and the bitmap, and may fail with some of its changes made. A
-- sector keeps the value written last; `recast` says what a sector reads as at another type. Loops
-- over chains on the disk are on fuel.
pub mod Keeps
use maram_os.Base.{
  ℕ, ◌+◌, ◌/◌, ◌%◌, Bool, ◌&&◌, Option, none, some, List, ltb, leb, ◌==◌, if◌then◌else◌, update,
  replicate,
}
use maram_os.Fs.Bitmap.{BitmapAllocator, alloc, free_blocks}
use maram_os.Fs.Links.{LinkPointer, LinkBlock}

pub record DirEntry : Type 0 where
  pub name : List ℕ
  pub flags : ℕ
  pub link : LinkPointer

pub record DirBlock : Type 0 where
  pub parent : ℕ
  pub entries : List DirEntry
  pub next : LinkPointer

abbrev pub entries_per_direntry : ℕ
entries_per_direntry = 8

abbrev pub is_dir : ℕ → Bool
is_dir flags = flags % 2 == 1

abbrev pub is_symlink : ℕ → Bool
is_symlink flags = flags / 2 % 2 == 1

abbrev pub null : LinkPointer
null = record { start = 0; size = 0 }

abbrev pub zero_entry : DirEntry
zero_entry = record { name = replicate 36 0; flags = 0; link = null }

pub data Sector : Type 0 where
  dir_sector : DirBlock → Sector
  link_sector : LinkBlock → Sector
  zeroed : Sector
  raw : (ℕ → ℕ) → Sector

pub record Recast : Type 0 where
  pub to_dir : Sector → DirBlock
  pub to_link : Sector → LinkBlock
  pub to_bytes : Sector → ℕ → ℕ

-- A sector of zeros has zeros everywhere.
abbrev pub zero_dir : DirBlock
zero_dir = record { parent = 0; entries = replicate 8 zero_entry; next = null }

abbrev pub zero_link : LinkBlock
zero_link = record { links = replicate 31 null; last = null }

abbrev pub as_dir : Recast → Sector → DirBlock
as_dir r (dir_sector b) = b
as_dir r (link_sector b) = r.to_dir (link_sector b)
as_dir r zeroed = zero_dir
as_dir r (raw bytes) = r.to_dir (raw bytes)

abbrev pub as_link : Recast → Sector → LinkBlock
as_link r (dir_sector b) = r.to_link (dir_sector b)
as_link r (link_sector b) = b
as_link r zeroed = zero_link
as_link r (raw bytes) = r.to_link (raw bytes)

abbrev pub as_bytes : Recast → Sector → ℕ → ℕ
as_bytes r (dir_sector b) = r.to_bytes (dir_sector b)
as_bytes r (link_sector b) = r.to_bytes (link_sector b)
as_bytes r zeroed = λ i. 0
as_bytes r (raw bytes) = bytes

pub data FsError : Type 0 where
  wrong_fs : FsError
  bad_superblock : FsError
  io_error : FsError
  no_space : FsError
  bad_file_type : FsError
  file_not_found : FsError
  file_exists : FsError
  bad_filename : FsError
  is_root_error : FsError
  bad_flags : FsError

pub data Outcome {ℓ} (A : Type ℓ) : Type ℓ where
  ok : A → Outcome A
  err : FsError → Outcome A
  panic : Outcome A
  out_of_fuel : Outcome A

pub record File : Type 0 where
  pub name : List ℕ
  pub size : ℕ
  pub head : LinkPointer
  pub links : List LinkPointer

pub data DirectoryEntry : Type 0 where
  file_entry : File → DirectoryEntry
  dir_entry : (name : List ℕ) → LinkPointer → DirectoryEntry
  symlink_entry : (name : List ℕ) → LinkPointer → DirectoryEntry

pub record SuperBlock : Type 0 where
  pub flags : ℕ
  pub checksum : ℕ
  pub bitmap_start : ℕ
  pub data_start : ℕ
  pub data_end : ℕ

pub record LemonFs : Type 0 where
  pub disk : ℕ → Sector
  pub superblock : SuperBlock
  pub bitmap : BitmapAllocator
  pub root : List DirectoryEntry

abbrev pub M : Type 0 → Type 0
M A = LemonFs → Outcome A × LemonFs

abbrev pub pure : {A : Type 0} → A → M A
pure a s = (ok a, s)

abbrev pub fail : {A : Type 0} → FsError → M A
fail e s = (err e, s)

abbrev pub continue : {A B : Type 0} → Outcome A × LemonFs → (A → M B) → Outcome B × LemonFs
continue (ok a, s) f = f a s
continue (err e, s) f = (err e, s)
continue (panic, s) f = (panic, s)
continue (out_of_fuel, s) f = (out_of_fuel, s)

infixl 5 ◌>>=◌ ◌>>◌
abbrev pub ◌>>=◌ : {A B : Type 0} → M A → (A → M B) → M B
◌>>=◌ m f s = continue (m s) f

abbrev pub ◌>>◌ : {B : Type 0} → M (Unit {0}) → M B → M B
m >> k = m >>= λ _. k

-- `ok_or`.
abbrev pub of_option : {A : Type 0} → Option A → FsError → M A
of_option none e = fail e
of_option (some a) e = pure a

abbrev pub diverge : {A : Type 0} → M A
diverge s = (out_of_fuel, s)

-- A panic.
abbrev pub halt : {A : Type 0} → M A
halt s = (panic, s)

abbrev pub current : M LemonFs
current s = (ok s, s)

-- `bitmap.alloc(1)` and `bitmap.free`.
unfoldable pub alloc_block : M (Option ℕ)
alloc_block s = elim (alloc s.bitmap 1) [
  | none ↦ (panic, s)
  | some (lba, bitmap) ↦ (ok lba, record s { bitmap = bitmap })
]

unfoldable pub free_run : ℕ → ℕ → M (Unit {0})
free_run start count s = elim (free_blocks s.bitmap start count) [
  | none ↦ (panic, s)
  | some bitmap ↦ (ok tt, record s { bitmap = bitmap })
]

-- On a disk of `sectors` sectors.
module _ (sectors : ℕ) where
  unfoldable pub read_sector : ℕ → M Sector
  read_sector lba s = if ltb lba sectors then (ok (s.disk lba), s) else (err io_error, s)

  -- `write_data`.
  unfoldable pub write_data : ℕ → Sector → M (Unit {0})
  write_data lba value s =
      if ltb lba sectors
      then (ok tt, record s { disk = update s.disk lba value })
      else (err io_error, s)

  -- `zero_sectors` for at most 4096 sectors, which are one write.
  unfoldable pub zero_run : ℕ → ℕ → M (Unit {0})
  zero_run start count s =
      if count == 0
      then (ok tt, s)
      else if leb (start + count) sectors
      then (
        ok tt,
        record s {
          disk = λ lba. if leb start lba && ltb lba (start + count) then zeroed else s.disk lba;
        },
      )
      else (err io_error, s)
