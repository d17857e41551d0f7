-- ===== src/Fs/LemonFs/Paths.antt =====
-- `root_dir` and `get_parent` of kernel/src/fs/lemonfs/mod.rs: the directory that a path leads to.
use maram_os.Base.{ℕ, List, [], ◌∷◌}
use maram_os.Fs.Path.{from_str, components, parent, slash}
use maram_os.Fs.Store.{
  Recast, as_dir, bad_file_type, file_not_found, DirectoryEntry, file_entry, dir_entry,
  symlink_entry, LemonFs, M, pure, of_option, fail, ◌>>=◌, read_sector,
}
use maram_os.Fs.Directory.{Directory, block_link, get_child, from_dir_block, open_entry}

unfoldable pub root_dir : LemonFs → Directory
unfolding from_str
root_dir s = record {
  name = from_str (slash ∷ []);
  parent = 0;
  children = s.root;
  head = block_link s.superblock.data_end;
}

module _ (sectors : ℕ) (recast : Recast) where
  -- The match of the loop of `get_parent`.
  unfoldable pub enter_child : ℕ → List ℕ → DirectoryEntry → M Directory
  unfolding open_entry from_dir_block read_sector from_str
  enter_child fuel c (file_entry f) = fail bad_file_type
  enter_child fuel c (symlink_entry label dest) = read_sector sectors dest.start >>= λ sector.
      from_dir_block sectors recast fuel (as_dir recast sector) (from_str c) dest
  enter_child fuel c (dir_entry label link) = open_entry sectors recast fuel (dir_entry label link)

  unfoldable pub walk_path : ℕ → Directory → List (List ℕ) → M Directory
  unfolding get_child enter_child
  walk_path fuel d [] = pure d
  walk_path fuel d (c ∷ rest) = of_option (get_child d.children c) file_not_found >>= λ e.
      enter_child fuel c e >>= λ next. walk_path fuel next rest

  unfoldable pub get_parent : ℕ → List ℕ → M Directory
  unfolding walk_path root_dir parent components
  get_parent fuel path s = walk_path fuel (root_dir s) (components (parent path)) s
