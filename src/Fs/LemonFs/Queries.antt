-- ===== src/Fs/LemonFs/Queries.antt =====
-- What the queries of LemonFS do to the file system: nothing.
use maram_os.Base.{
  ℕ, ◌+◌, ◌-◌, refl, List, [], ◌∷◌, min, leb, ◌==◌, if◌then◌else◌, Bool-cases, inl, inr, div_ceil,
}
use maram_os.Fs.Links.{LinkPointer}
use maram_os.Fs.Path.{components, is_root, parent, name, from_str}
use maram_os.Fs.Store.{
  Recast, as_dir, DirectoryEntry, file_entry, dir_entry, symlink_entry, LemonFs, M, pure, ◌>>=◌,
  of_option, file_not_found, bad_file_type, is_root_error, fail, ok,
}
use maram_os.Fs.Store.Keeps.{
  Keeps, Keeps-bind, Keeps-pure, Keeps-fail, Keeps-if, Keeps-of_option, Keeps-read_sector,
}
use maram_os.Fs.Directory.{Directory, get_child}
use maram_os.Fs.Directory.Keeps.{Keeps-resolve, Keeps-from_dir_block, Keeps-open_entry}
use maram_os.Fs.LemonFs.Paths.{enter_child, walk_path, get_parent, root_dir}
use maram_os.Fs.LemonFs.Entries.{size_of, file_size, open_child, list, names_of}
use maram_os.Fs.LemonFs.Contents.{Page, read_run, read_links, links_to_read, read}

module _ {B : Type 0} (view : LemonFs → B) (sectors : ℕ) (recast : Recast) where
  Keeps-enter_child :
      (fuel : ℕ) (c : List ℕ) (e : DirectoryEntry)
      → Keeps view (enter_child sectors recast fuel c e)
  unfolding enter_child
  Keeps-enter_child fuel c (file_entry f) = Keeps-fail view _ bad_file_type
  Keeps-enter_child fuel c (symlink_entry label dest) =
      Keeps-bind view _ _ (Keeps-read_sector view sectors dest.start) (λ sector.
        Keeps-from_dir_block view sectors recast fuel (as_dir recast sector) (from_str c) dest)
  Keeps-enter_child fuel c (dir_entry label link) =
      Keeps-open_entry view sectors recast fuel (dir_entry label link)

  Keeps-walk_path :
      (fuel : ℕ) (d : Directory) (parts : List (List ℕ))
      → Keeps view (walk_path sectors recast fuel d parts)
  unfolding walk_path
  Keeps-walk_path fuel d [] = Keeps-pure view d
  Keeps-walk_path fuel d (c ∷ rest) =
      Keeps-bind view _ _ (Keeps-of_option view (get_child d.children c) file_not_found) (λ e.
        Keeps-bind view _ _ (Keeps-enter_child fuel c e) (λ next. Keeps-walk_path fuel next rest))

  pub Keeps-get_parent :
      (fuel : ℕ) (path : List ℕ) → Keeps view (get_parent sectors recast fuel path)
  unfolding Keeps get_parent
  Keeps-get_parent fuel path = λ s. Keeps-walk_path fuel (root_dir s) (components (parent path)) s

  Keeps-open_child : (fuel : ℕ) (e : DirectoryEntry) → Keeps view (open_child sectors recast fuel e)
  unfolding open_child
  Keeps-open_child fuel (file_entry f) = Keeps-fail view _ bad_file_type
  Keeps-open_child fuel (symlink_entry label dest) =
      Keeps-bind view _ _ (Keeps-read_sector view sectors dest.start)
        (λ sector. Keeps-from_dir_block view sectors recast fuel (as_dir recast sector) label dest)
  Keeps-open_child fuel (dir_entry label link) =
      Keeps-open_entry view sectors recast fuel (dir_entry label link)

  Keeps-size_of : (e : DirectoryEntry) → Keeps view (size_of sectors recast e)
  Keeps-size_of (file_entry f) = Keeps-pure view f.size
  Keeps-size_of (dir_entry label link) = Keeps-fail view _ bad_file_type
  Keeps-size_of (symlink_entry label dest) = Keeps-fail view _ bad_file_type

  Keeps-names_of_root : Keeps view (λ s. (ok (names_of sectors recast s.root), s))
  unfolding Keeps
  Keeps-names_of_root = λ s. refl

  Keeps-read_run : (start count : ℕ) → Keeps view (read_run sectors recast start count)
  unfolding Keeps read_run
  Keeps-read_run start count = λ s. elim (Bool-cases (count == 0)) [
    | inl e ↦ rw e refl
    | inr e ↦ elim (Bool-cases (leb (start + count) sectors)) [
      | inl f ↦ rw (e, f) refl
      | inr f ↦ rw (e, f) refl
    ]
  ]

  Keeps-read_links :
      (ls : List LinkPointer) (size offset : ℕ) (page : ℕ → ℕ)
      → Keeps view (read_links sectors recast ls size offset page)
  unfolding read_links
  Keeps-read_links [] size offset page = Keeps-pure view page
  Keeps-read_links (l ∷ rest) size offset page =
      Keeps-if view (leb size offset) _ _ (Keeps-pure view page) (
        Keeps-bind view _ _ (Keeps-read_run l.start (div_ceil l.size 512))
          (λ bytes. Keeps-read_links rest size (offset + min (size - offset) l.size) _))

  Keeps-links_to_read :
      (fuel : ℕ) (e : DirectoryEntry) → Keeps view (links_to_read sectors recast fuel e)
  Keeps-links_to_read fuel (dir_entry label link) = Keeps-fail view _ bad_file_type
  Keeps-links_to_read fuel (file_entry f) = Keeps-pure view f.links
  Keeps-links_to_read fuel (symlink_entry label dest) = Keeps-resolve view sectors recast fuel dest

  -- `file_size`, `list` and `read` leave every part of the file system as it was, whatever they
  -- return: its disk, bitmap and superblock, and the cached root.
  pub queries-Keeps :
      (fuel : ℕ) (path : List ℕ) (dest : Page)
      → Keeps view (file_size sectors recast fuel path)
        × Keeps view (list sectors recast fuel path)
        × Keeps view (read sectors recast fuel path dest)
  unfolding file_size list read
  queries-Keeps fuel path dest = (
    child (λ e. size_of sectors recast e) (Keeps-size_of),
    Keeps-if view (is_root path) _ _ Keeps-names_of_root (
        child_of
          (λ e. open_child sectors recast fuel e >>= λ d. pure (names_of sectors recast d.children))
          (λ e. Keeps-bind view _ _ (Keeps-open_child fuel e) (λ d. Keeps-pure view _))),
    child _ (λ e. Keeps-bind view _ _ (Keeps-links_to_read fuel e) (λ links.
        Keeps-bind view _ _ (Keeps-read_links links _ 0 dest.bytes) (λ bytes. Keeps-pure view _))),
  )
    where
      child_of :
          {A : Type 0} (f : DirectoryEntry → M A)
          → ((e : DirectoryEntry) → Keeps view (f e))
          → Keeps view (
              get_parent sectors recast fuel path >>= λ dir.
              of_option (get_child dir.children (name path)) file_not_found >>= f)
      child_of f h = Keeps-bind view _ _ (Keeps-get_parent fuel path) (λ dir.
          Keeps-bind view _ _
            (Keeps-of_option view (get_child dir.children (name path)) file_not_found) h)

      child :
          {A : Type 0} (f : DirectoryEntry → M A)
          → ((e : DirectoryEntry) → Keeps view (f e))
          → Keeps view (
              if is_root path
              then fail is_root_error
              else (get_parent sectors recast fuel path >>= λ dir.
                  of_option (get_child dir.children (name path)) file_not_found >>= f))
      child f h = Keeps-if view (is_root path) _ _ (Keeps-fail view _ is_root_error) (child_of f h)
