-- ===== src/Fs/LemonFs/Contents.antt =====
-- `read`, `write` and `route_symlink` of kernel/src/fs/lemonfs/mod.rs. A page of memory is the
-- number of its pages and its bytes by their offsets; there is always a page to be had.
use maram_os.Base.{
  ℕ, ◌+◌, ◌-◌, ◌*◌, ◌/◌, ◌%◌, ◌&&◌, min, none, some, List, [], ◌∷◌, ltb, leb, ◌==◌, if◌then◌else◌,
  set, get_elem?, div_ceil, max, drop,
}
use maram_os.Fs.Links.{LinkPointer}
use maram_os.Fs.Path.{is_root, parent, name}
use maram_os.Fs.Sectors.{page_size}
use maram_os.Fs.Store.{
  raw, Recast, as_bytes, io_error, bad_file_type, file_not_found, is_root_error, ok, err, File,
  DirectoryEntry, file_entry, dir_entry, symlink_entry, M, pure, halt, fail, ◌>>=◌, ◌>>◌, of_option,
  free_run, zero_run,
}
use maram_os.Fs.Directory.{
  Directory, find_child_idx, get_child, sum_sizes, resolve, trace_from, free_indirect,
}
use maram_os.Fs.Directory.Sync.{sync, build_chain}
use maram_os.Fs.LemonFs.Paths.{get_parent}
use maram_os.Fs.LemonFs.Chain.{blocks_of, build_file_chain}

pub record Page : Type 0 where
  pub count : ℕ
  pub bytes : ℕ → ℕ

abbrev pub max_size : List LinkPointer → ℕ
max_size [] = 0
max_size (l ∷ rest) = max l.size (max_size rest)

-- `if path.parent().is_root() && let Some(i) = ..`: the cached entry is replaced.
unfoldable pub recache : List ℕ → DirectoryEntry → M (Unit {0})
unfolding find_child_idx parent is_root name
recache path e s =
    if is_root (parent path)
    then elim (find_child_idx s.root (name path)) [
      | none ↦ (ok tt, s)
      | some i ↦ (ok tt, record s { root = set s.root i e })
    ]
    else (ok tt, s)

module _ (sectors : ℕ) (recast : Recast) where
  -- `read_sectors`: the bytes of a run of sectors.
  unfoldable pub read_run : ℕ → ℕ → M (ℕ → ℕ)
  read_run start count s =
      if count == 0
      then (err io_error, s)
      else if leb (start + count) sectors
      then (ok (λ i. as_bytes recast (s.disk (start + i / 512)) (i % 512)), s)
      else (err io_error, s)

  -- `write_sectors`, of a page with the bytes.
  unfoldable pub write_run : ℕ → ℕ → (ℕ → ℕ) → M (Unit {0})
  write_run start count bytes s =
      if count == 0
      then (ok tt, s)
      else if leb (start + count) sectors
      then (
        ok tt,
        record s {
          disk = λ lba.
              if leb start lba && ltb lba (start + count)
              then raw (λ i. bytes ((lba - start) * 512 + i))
              else s.disk lba;
        },
      )
      else (err io_error, s)

  -- The loop of `read`: the page with what is read from `offset` on.
  unfoldable pub read_links : List LinkPointer → ℕ → ℕ → (ℕ → ℕ) → M (ℕ → ℕ)
  unfolding read_run
  read_links [] read_size offset page = pure page
  read_links (l ∷ rest) read_size offset page =
      if leb read_size offset
      then pure page
      else (read_run l.start (div_ceil l.size 512) >>= λ bytes.
          let n = min (read_size - offset) l.size in
          read_links rest read_size (offset + n)
            (λ i. if leb offset i && ltb i (offset + n) then bytes (i - offset) else page i))

  abbrev pub links_to_read : ℕ → DirectoryEntry → M (List LinkPointer)
  links_to_read fuel (dir_entry label link) = fail bad_file_type
  links_to_read fuel (file_entry f) = pure f.links
  links_to_read fuel (symlink_entry label dest) = resolve sectors recast fuel dest

  -- The bytes read, and the bytes of the destination after it.
  unfoldable pub read : ℕ → List ℕ → Page → M (ℕ × (ℕ → ℕ))
  unfolding get_parent get_child is_root name resolve read_links
  read fuel path dest =
      if is_root path
      then fail is_root_error
      else (get_parent sectors recast fuel path >>= λ dir.
          of_option (get_child dir.children (name path)) file_not_found >>= λ e.
          links_to_read fuel e >>= λ links.
          let read_size = min (sum_sizes links) (dest.count * page_size) in
          read_links links read_size 0 dest.bytes >>= λ bytes. pure (read_size, bytes))

  -- The blocks that a file no longer needs.
  unfoldable pub free_surplus : List ℕ → M (Unit {0})
  unfolding free_run zero_run
  free_surplus [] = pure tt
  free_surplus (block ∷ rest) = free_run block 1 >> (zero_run sectors block 1 >> free_surplus rest)

  -- The loop of `write` over the new links.
  unfoldable pub write_links : List LinkPointer → ℕ → (ℕ → ℕ) → M (Unit {0})
  unfolding write_run
  write_links [] offset src = pure tt
  write_links (l ∷ rest) offset src =
      write_run l.start (div_ceil l.size 512) (λ i. if ltb i l.size then src (offset + i) else 0)
      >> write_links rest (offset + l.size) src

  abbrev pub fill_links : List LinkPointer → (ℕ → ℕ) → M (Unit {0})
  fill_links [] src = halt
  fill_links (l ∷ rest) src = write_links (l ∷ rest) 0 src

  -- What `write` does with the file.
  unfoldable pub write_file : ℕ → File → Page → M File
  unfolding trace_from free_indirect blocks_of build_chain free_surplus build_file_chain resolve
      write_links
  write_file fuel f src = trace_from sectors recast fuel f.head >>= λ old.
      free_indirect sectors recast old.1
      >> (build_chain (blocks_of old.0) (div_ceil (src.count * page_size) 512) 0 [] >>= λ chain.
          free_surplus (drop (div_ceil (src.count * page_size) 512) (blocks_of old.0))
          >> (build_file_chain sectors chain >>= λ head.
              resolve sectors recast fuel head >>= λ links.
              fill_links links src.bytes
              >> pure (record f { head = head; size = sum_sizes links })))

  -- What `write` does with the parent of the file.
  abbrev pub write_child : ℕ → List ℕ → Page → Directory → ℕ → DirectoryEntry → M (Unit {0})
  write_child fuel path src dir i (file_entry f) = write_file fuel f src >>= λ g.
      sync sectors recast fuel (record dir { children = set dir.children i (file_entry g) })
      >> recache path (file_entry g)
  write_child fuel path src dir i (dir_entry label link) = fail bad_file_type
  write_child fuel path src dir i (symlink_entry label dest) = fail bad_file_type

  unfoldable pub write : ℕ → List ℕ → Page → M (Unit {0})
  unfolding get_parent find_child_idx write_file sync recache is_root name
  write fuel path src =
      if is_root path
      then fail is_root_error
      else (get_parent sectors recast fuel path >>= λ dir.
          of_option (find_child_idx dir.children (name path)) file_not_found >>= λ i.
          elim (get_elem? dir.children i) [
            | none ↦ halt
            | some e ↦ write_child fuel path src dir i e
          ])

  abbrev pub target_of : DirectoryEntry → LinkPointer
  target_of (file_entry f) = f.head
  target_of (dir_entry label link) = link
  target_of (symlink_entry label dest) = dest

  -- `target` of `route_symlink`.
  unfoldable pub find_target : ℕ → List ℕ → M LinkPointer
  unfolding get_parent get_child name
  find_target fuel path = get_parent sectors recast fuel path >>= λ dir.
      of_option (get_child dir.children (name path)) file_not_found >>= λ e. pure (target_of e)

  abbrev pub route_child : ℕ → List ℕ → List ℕ → Directory → ℕ → DirectoryEntry → M (Unit {0})
  route_child fuel path dest dir i (symlink_entry label old) = find_target fuel dest >>= λ target.
      sync sectors recast fuel
        (record dir { children = set dir.children i (symlink_entry label target) })
      >> recache path (symlink_entry label target)
  route_child fuel path dest dir i (file_entry f) = fail bad_file_type
  route_child fuel path dest dir i (dir_entry label link) = fail bad_file_type

  unfoldable pub route_symlink : ℕ → List ℕ → List ℕ → M (Unit {0})
  unfolding get_parent find_child_idx find_target sync recache parent is_root name
  route_symlink fuel path dest =
      if is_root path
      then fail is_root_error
      else (get_parent sectors recast fuel (parent path) >>= λ dir.
          of_option (find_child_idx dir.children (name path)) file_not_found >>= λ i.
          elim (get_elem? dir.children i) [
            | none ↦ halt
            | some e ↦ route_child fuel path dest dir i e
          ])
