-- ===== src/Fs/Directory.antt =====
-- kernel/src/fs/lemonfs/file.rs and kernel/src/fs/lemonfs/directory.rs: files and directories over
-- the state of LemonFS. `fuel` bounds each chain that is walked.
pub mod Keeps
pub mod Lookup
pub mod Sync
use maram_os.Base.{
  add64, ℕ, zero, suc, ◌+◌, ◌-◌, ◌*◌, ◌/◌, ◌%◌, ◌^◌, ◌≤◌, ◌<◌, ◌≡◌, ◌≢◌, refl, Bool, true, false,
  ◌||◌, ◌&&◌, ◌⊎◌, min, Option, none, some, List, [], ◌∷◌, ◌++◌, arith, ltb, leb, ◌==◌, ==_iff, ◌∙◌,
  ap, sym, subst, ltb→lt, if◌then◌else◌, update, all_below, all_below_sound, Bool-cases,
  Option-cases, inl, inr, All, All-get_elem?, All-set, length-set, set, length, get_elem?,
  get_elem?-set_self, get_elem?-set_ne, get_elem?_below, sub64, u64_mod, checked_sub, div_ceil, max,
  not, drop, take, replicate, append_assoc, append-nil, length-append,
}
use maram_os.Fs.Links.{
  LinkPointer, LinkBlock, Walk, done, io_error as walk_io_error, out_of_fuel as walk_on, is_valid,
  is_direct, trace, resolve_links,
}
use maram_os.Fs.Path.{from_str, to_str, is_empty, same_str}
use maram_os.Fs.Store.{
  DirEntry, DirBlock, entries_per_direntry, is_dir, is_symlink, null, zero_entry, Sector,
  dir_sector, Recast, as_dir, as_link, FsError, io_error, no_space, bad_file_type, Outcome, ok, err,
  panic, out_of_fuel, File, DirectoryEntry, file_entry, dir_entry, symlink_entry, LemonFs, M, pure,
  fail, ◌>>=◌, ◌>>◌, continue, of_option, diverge, current, alloc_block, free_run, read_sector,
  write_data, zero_run,
}

pub data FileType : Type 0 where
  plain : FileType
  directory : FileType
  symlink : FileType

abbrev pub from_dirflags : ℕ → FileType
from_dirflags flags =
    if is_dir flags then directory else if is_symlink flags then symlink else plain

pub record Directory : Type 0 where
  pub name : List ℕ
  pub parent : ℕ
  pub children : List DirectoryEntry
  pub head : LinkPointer

abbrev pub block_link : ℕ → LinkPointer
block_link lba = record { start = lba; size = 512 }

abbrev pub new_file : List ℕ → ℕ → File
new_file name start = record {
  name = from_str name;
  size = 0;
  head = record { start = start; size = 1 };
  links = [];
}

abbrev pub new_entry : List ℕ → ℕ → FileType → DirectoryEntry
new_entry name start directory = dir_entry name (block_link start)
new_entry name start plain = file_entry (new_file (to_str name) start)
new_entry name start symlink = symlink_entry name null

abbrev pub filename : DirectoryEntry → List ℕ
filename (file_entry f) = f.name
filename (dir_entry name link) = name
filename (symlink_entry name dest) = name

abbrev pub entry_name : DirectoryEntry → List ℕ
entry_name e = to_str (filename e)

unfoldable pub to_dentry : DirectoryEntry → DirEntry
to_dentry (file_entry f) = record { name = f.name; flags = 0; link = f.head }
to_dentry (dir_entry name link) = record { name = name; flags = 1; link = link }
to_dentry (symlink_entry name dest) = record { name = name; flags = 2; link = dest }

unfoldable pub find_child_idx : List DirectoryEntry → List ℕ → Option ℕ
unfolding same_str
find_child_idx [] name = none
find_child_idx (e ∷ rest) name =
    let later = find_child_idx rest name in
    if same_str (entry_name e) name
    then some 0
    else elim later [ none ↦ none | some i ↦ some (suc i) ]

unfoldable pub get_child : List DirectoryEntry → List ℕ → Option DirectoryEntry
unfolding same_str
get_child [] name = none
get_child (e ∷ rest) name =
    let later = get_child rest name in if same_str (entry_name e) name then some e else later

abbrev pub sum_sizes : List LinkPointer → ℕ
sum_sizes [] = 0
sum_sizes (l ∷ rest) = add64 l.size (sum_sizes rest)

module _ (sectors : ℕ) (recast : Recast) where
  abbrev pub link_reader : LemonFs → ℕ → Option LinkBlock
  link_reader s lba = if ltb lba sectors then some (as_link recast (s.disk lba)) else none

  abbrev pub of_walk : {A : Type 0} → Walk A → M A
  of_walk (done a) = pure a
  of_walk walk_io_error = fail io_error
  of_walk walk_on = diverge

  unfoldable pub resolve : ℕ → LinkPointer → M (List LinkPointer)
  resolve fuel start s = of_walk (resolve_links fuel (link_reader s) (start ∷ [])) s

  unfoldable pub trace_from : ℕ → LinkPointer → M (List LinkPointer × List LinkPointer)
  trace_from fuel start s = of_walk (trace fuel (link_reader s) start [] []) s

  -- `File::from_dir_entry`.
  unfoldable pub file_from : ℕ → DirEntry → M File
  unfolding resolve
  file_from fuel e =
      if is_dir e.flags || is_symlink e.flags
      then fail bad_file_type
      else (resolve fuel e.link >>= λ links.
          pure (record { name = e.name; size = sum_sizes links; head = e.link; links = links }))

  -- The two loops of `File::delete`.
  unfoldable pub free_direct : List LinkPointer → M (Unit {0})
  unfolding free_run zero_run
  free_direct [] = pure tt
  free_direct (l ∷ rest) =
      free_run l.start (div_ceil l.size 512)
      >> (zero_run sectors l.start (div_ceil l.size 512) >> free_direct rest)

  unfoldable pub free_indirect : List LinkPointer → M (Unit {0})
  unfolding free_run zero_run
  free_indirect [] = pure tt
  free_indirect (l ∷ rest) =
      free_run l.start 1 >> (zero_run sectors l.start 1 >> free_indirect rest)

  unfoldable pub delete_file : ℕ → File → M (Unit {0})
  unfolding trace_from free_direct free_indirect
  delete_file fuel f =
      trace_from fuel f.head >>= λ links. free_direct links.0 >> free_indirect links.1

  -- `DirectoryEntry::from_dir_entry`.
  unfoldable pub entry_from : ℕ → DirEntry → M DirectoryEntry
  unfolding file_from
  entry_from fuel e =
      if is_symlink e.flags
      then pure (symlink_entry e.name e.link)
      else if is_dir e.flags
      then pure (dir_entry e.name e.link)
      else (file_from fuel e >>= λ f. pure (file_entry f))

  -- `filter_map(..).flatten()`: entries without a name and entries that fail are left out.
  abbrev pub or_skip :
      Outcome DirectoryEntry × LemonFs
      → M (List DirectoryEntry)
      → Outcome (List DirectoryEntry) × LemonFs
  or_skip (ok e, s) later = continue (later s) (λ more. pure (e ∷ more))
  or_skip (err e, s) later = later s
  or_skip (panic, s) later = (panic, s)
  or_skip (out_of_fuel, s) later = (out_of_fuel, s)

  unfoldable pub keep_entries : ℕ → List DirEntry → M (List DirectoryEntry)
  unfolding entry_from is_empty
  keep_entries fuel [] = pure []
  keep_entries fuel (e ∷ rest) =
      let later = keep_entries fuel rest in
      if is_empty e.name then later else (λ s. or_skip (entry_from fuel e s) later)

  unfoldable pub add_children : ℕ → ℕ → List DirectoryEntry → LinkPointer → M (List DirectoryEntry)
  unfolding keep_entries read_sector
  add_children zero fuel children ptr = if is_direct ptr then diverge else pure children
  add_children (suc rounds) fuel children ptr =
      if is_direct ptr
      then (read_sector sectors ptr.start >>= λ sector.
          keep_entries fuel (as_dir recast sector).entries >>= λ kept.
          add_children rounds fuel (children ++ kept) (as_dir recast sector).next)
      else pure children

  unfoldable pub from_dir_block : ℕ → DirBlock → List ℕ → LinkPointer → M Directory
  unfolding add_children
  from_dir_block fuel b name head = add_children fuel fuel [] head >>= λ children.
      pure (record { name = name; parent = b.parent; children = children; head = head })

  -- `from_directory_entry`.
  unfoldable pub open_entry : ℕ → DirectoryEntry → M Directory
  unfolding from_dir_block read_sector
  open_entry fuel (file_entry f) = fail bad_file_type
  open_entry fuel (symlink_entry name dest) = fail bad_file_type
  open_entry fuel (dir_entry name link) = read_sector sectors link.start >>= λ sector.
      from_dir_block fuel (as_dir recast sector) name link

  -- The loop over the blocks of `Directory::delete`.
  unfoldable pub delete_blocks : ℕ → LinkPointer → M (Unit {0})
  unfolding read_sector free_run zero_run
  delete_blocks zero ptr = if is_valid ptr && is_direct ptr then diverge else pure tt
  delete_blocks (suc rounds) ptr =
      if is_valid ptr && is_direct ptr
      then (read_sector sectors ptr.start >>= λ sector.
          free_run ptr.start 1
          >> (zero_run sectors ptr.start 1 >> delete_blocks rounds (as_dir recast sector).next))
      else pure tt

  -- The loop over the children, where `inner` deletes a directory.
  unfoldable pub delete_children :
      ℕ → (Directory → M (Unit {0})) → List DirectoryEntry → M (Unit {0})
  unfolding delete_file from_dir_block read_sector
  delete_children fuel inner [] = pure tt
  delete_children fuel inner (file_entry f ∷ rest) =
      delete_file fuel f >> delete_children fuel inner rest
  delete_children fuel inner (dir_entry name link ∷ rest) =
      read_sector sectors link.start >>= λ sector.
      from_dir_block fuel (as_dir recast sector) (from_str []) link >>= λ dir.
      inner dir >> delete_children fuel inner rest
  delete_children fuel inner (symlink_entry name dest ∷ rest) = delete_children fuel inner rest

  unfoldable pub delete_directory : ℕ → ℕ → Directory → M (Unit {0})
  unfolding delete_children delete_blocks
  delete_directory zero fuel d = diverge
  delete_directory (suc depth) fuel d =
      delete_children fuel (delete_directory depth fuel) d.children >> delete_blocks fuel d.head
