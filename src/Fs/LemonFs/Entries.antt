-- ===== src/Fs/LemonFs/Entries.antt =====
-- The file system interface of kernel/src/fs/lemonfs/mod.rs that makes, removes and names entries:
-- `create`, `delete`, `file_size` and `list`.
use maram_os.Base.{
  ℕ, ◌-◌, ◌%◌, Option, none, some, List, [], ◌∷◌, ◌++◌, ltb, if◌then◌else◌, set, length, get_elem?,
  map,
}
use maram_os.Fs.Path.{from_str, is_root, parent, name}
use maram_os.Fs.Store.{
  Recast, as_dir, no_space, bad_file_type, file_not_found, file_exists, is_root_error, bad_flags,
  ok, err, panic, DirectoryEntry, file_entry, dir_entry, symlink_entry, M, pure, halt, fail, ◌>>=◌,
  ◌>>◌, of_option, alloc_block, read_sector,
}
use maram_os.Fs.Directory.{
  Directory, FileType, plain, directory, symlink, from_dirflags, new_entry, entry_name,
  find_child_idx, get_child, delete_file, from_dir_block, open_entry, delete_directory,
}
use maram_os.Fs.Directory.Sync.{sync, give_child}
use maram_os.Fs.LemonFs.Paths.{get_parent}

-- `swap_remove(i)`: the element, and the others with the last one in its place.
unfoldable pub without_last {ℓ} : {A : Type ℓ} → List A → List A
without_last [] = []
without_last (x ∷ []) = []
without_last (x ∷ y ∷ rest) = x ∷ without_last (y ∷ rest)

unfoldable pub swap_remove {ℓ} : {A : Type ℓ} → List A → ℕ → Option (A × List A)
unfolding without_last
swap_remove xs i = elim (get_elem? xs i) [
  | none ↦ none
  | some x ↦ elim (get_elem? xs (length xs - 1)) [
    | none ↦ none
    | some last ↦ some (x, without_last (set xs i last))
  ]
]

module _ (sectors : ℕ) (recast : Recast) where
  -- `if path.parent().is_root() { self.root.push(entry) }`.
  abbrev pub cache_new : List ℕ → DirectoryEntry → M (Unit {0})
  cache_new path e s =
      if is_root (parent path) then (ok tt, record s { root = s.root ++ e ∷ [] }) else (ok tt, s)

  unfoldable pub start_of : FileType → M ℕ
  unfolding alloc_block
  start_of plain = alloc_block >>= λ block. of_option block no_space
  start_of directory = alloc_block >>= λ block. of_option block no_space
  start_of symlink = pure 0

  unfoldable pub create : ℕ → List ℕ → ℕ → M (Unit {0})
  unfolding get_parent find_child_idx name is_root parent from_str start_of give_child
  create fuel path flags =
      if is_root path
      then fail is_root_error
      else (get_parent sectors recast fuel path >>= λ dir.
          elim (find_child_idx dir.children (name path)) [
            | some i ↦ fail file_exists
            | none ↦
                if ltb 3 (flags % 256)
                then fail bad_flags
                else (start_of (from_dirflags (flags % 256)) >>= λ start.
                    let entry =
                      new_entry (from_str (name path)) start (from_dirflags (flags % 256)) in
                    give_child sectors recast fuel dir entry >> cache_new path entry)
          ])

  -- What `delete` does with the entry.
  unfoldable pub delete_entry : ℕ → DirectoryEntry → M (Unit {0})
  unfolding delete_file open_entry delete_directory
  delete_entry fuel (file_entry f) = delete_file sectors recast fuel f
  delete_entry fuel (dir_entry label link) =
      open_entry sectors recast fuel (dir_entry label link) >>= λ dir.
      delete_directory sectors recast fuel fuel dir
  delete_entry fuel (symlink_entry label dest) = pure tt

  unfoldable pub uncache : List ℕ → M (Unit {0})
  unfolding find_child_idx swap_remove parent is_root name
  uncache path s =
      if is_root (parent path)
      then elim (find_child_idx s.root (name path)) [
        | none ↦ (err file_not_found, s)
        | some i ↦ elim (swap_remove s.root i) [
          | none ↦ (panic, s)
          | some (e, root) ↦ (ok tt, record s { root = root })
        ]
      ]
      else (ok tt, s)

  unfoldable pub delete : ℕ → List ℕ → M (Unit {0})
  unfolding get_parent find_child_idx swap_remove delete_entry sync uncache is_root name
  delete fuel path =
      if is_root path
      then fail is_root_error
      else (get_parent sectors recast fuel path >>= λ dir.
          of_option (find_child_idx dir.children (name path)) file_not_found >>= λ i.
          elim (swap_remove dir.children i) [
            | none ↦ halt
            | some (e, children) ↦
                delete_entry fuel e
                >> (sync sectors recast fuel (record dir { children = children }) >> uncache path)
          ])

  abbrev pub size_of : DirectoryEntry → M ℕ
  size_of (file_entry f) = pure f.size
  size_of (dir_entry label link) = fail bad_file_type
  size_of (symlink_entry label dest) = fail bad_file_type

  unfoldable pub file_size : ℕ → List ℕ → M ℕ
  unfolding get_parent get_child is_root name
  file_size fuel path =
      if is_root path
      then fail is_root_error
      else (get_parent sectors recast fuel path >>= λ dir.
          of_option (get_child dir.children (name path)) file_not_found >>= λ e. size_of e)

  abbrev pub names_of : List DirectoryEntry → List (List ℕ)
  names_of children = map entry_name children

  -- The match of `list`.
  unfoldable pub open_child : ℕ → DirectoryEntry → M Directory
  unfolding open_entry from_dir_block read_sector
  open_child fuel (file_entry f) = fail bad_file_type
  open_child fuel (symlink_entry label dest) = read_sector sectors dest.start >>= λ sector.
      from_dir_block sectors recast fuel (as_dir recast sector) label dest
  open_child fuel (dir_entry label link) = open_entry sectors recast fuel (dir_entry label link)

  -- The child with the index that `find_child_idx` gives is the one that `get_child` gives.
  unfoldable pub list : ℕ → List ℕ → M (List (List ℕ))
  unfolding get_parent get_child is_root name open_child
  list fuel path =
      if is_root path
      then (λ s. (ok (names_of s.root), s))
      else (get_parent sectors recast fuel path >>= λ dir.
          of_option (get_child dir.children (name path)) file_not_found >>= λ e.
          open_child fuel e >>= λ d. pure (names_of d.children))
