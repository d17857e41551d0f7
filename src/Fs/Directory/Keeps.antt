-- ===== src/Fs/Directory/Keeps.antt =====
-- Reading files and directories changes nothing, and changing them leaves the cached root alone.
use maram_os.Base.{ℕ, suc, zero, ◌≡◌, refl, List, [], ◌∷◌, ◌++◌, ◌∙◌, ◌||◌, ◌&&◌, div_ceil}
use maram_os.Fs.Links.{
  LinkPointer, Walk, done, io_error, out_of_fuel as walk_on, is_direct, is_valid, resolve_links,
  trace,
}
use maram_os.Fs.Path.{is_empty, from_str}
use maram_os.Fs.Store.{
  DirEntry, DirBlock, is_dir, is_symlink, Recast, as_dir, Outcome, ok, err, panic, out_of_fuel,
  File, DirectoryEntry, file_entry, dir_entry, symlink_entry, LemonFs, M, pure, read_sector,
  bad_file_type,
}
use maram_os.Fs.Store.Keeps.{
  Keeps, the_root, Keeps-bind, Keeps-then, Keeps-pure, Keeps-fail, Keeps-diverge, Keeps-if,
  Keeps-read_sector, Keeps-free_run, Keeps-zero_run,
}
use maram_os.Fs.Directory.{
  Directory, of_walk, resolve, trace_from, file_from, free_direct, free_indirect, delete_file,
  entry_from, or_skip, keep_entries, add_children, from_dir_block, open_entry, delete_blocks,
  delete_children, delete_directory, link_reader,
}

module _ {B : Type 0} (view : LemonFs → B) (sectors : ℕ) (recast : Recast) where
  Keeps-of_walk : {A : Type 0} (w : Walk A) → Keeps view (of_walk sectors recast w)
  unfolding Keeps
  Keeps-of_walk (done a) = λ s. refl
  Keeps-of_walk io_error = λ s. refl
  Keeps-of_walk walk_on = λ s. refl

  pub Keeps-resolve : (fuel : ℕ) (p : LinkPointer) → Keeps view (resolve sectors recast fuel p)
  unfolding Keeps resolve
  Keeps-resolve fuel p =
      λ s. Keeps-of_walk (resolve_links fuel (link_reader sectors recast s) (p ∷ [])) s

  pub Keeps-trace_from :
      (fuel : ℕ) (p : LinkPointer) → Keeps view (trace_from sectors recast fuel p)
  unfolding Keeps trace_from
  Keeps-trace_from fuel p = λ s. Keeps-of_walk (trace fuel (link_reader sectors recast s) p [] []) s

  Keeps-file_from : (fuel : ℕ) (e : DirEntry) → Keeps view (file_from sectors recast fuel e)
  unfolding file_from
  Keeps-file_from fuel e =
      Keeps-if view (is_dir e.flags || is_symlink e.flags) _ _ (Keeps-fail view _ bad_file_type) (
        Keeps-bind view (resolve sectors recast fuel e.link) _ (Keeps-resolve fuel e.link)
          (λ links. Keeps-pure view _))

  Keeps-entry_from : (fuel : ℕ) (e : DirEntry) → Keeps view (entry_from sectors recast fuel e)
  unfolding entry_from
  Keeps-entry_from fuel e = Keeps-if view (is_symlink e.flags) _ _ (Keeps-pure view _) (
      Keeps-if view (is_dir e.flags) _ _ (Keeps-pure view _) (
        Keeps-bind view (file_from sectors recast fuel e) _ (Keeps-file_from fuel e)
          (λ f. Keeps-pure view _)))

  Keeps-or_skip :
      (o : Outcome DirectoryEntry) (t : LemonFs) (later : M (List DirectoryEntry))
      → Keeps view later
      → view (or_skip sectors recast (o, t) later).1 ≡ view t
  unfolding Keeps
  Keeps-or_skip (ok e) t later h =
      Keeps-bind view later (λ more. pure (e ∷ more)) h (λ more. Keeps-pure view (e ∷ more)) t
  Keeps-or_skip (err e) t later h = h t
  Keeps-or_skip panic t later h = refl
  Keeps-or_skip out_of_fuel t later h = refl

  Keeps-keep_entries :
      (fuel : ℕ) (es : List DirEntry) → Keeps view (keep_entries sectors recast fuel es)
  unfolding Keeps keep_entries
  Keeps-keep_entries fuel [] = λ s. refl
  Keeps-keep_entries fuel (e ∷ rest) =
      let ih = Keeps-keep_entries fuel rest in
      Keeps-if view (is_empty e.name) _ _ ih (λ s.
        Keeps-or_skip (entry_from sectors recast fuel e s).0 (entry_from sectors recast fuel e s).1
          (keep_entries sectors recast fuel rest) ih
        ∙ Keeps-entry_from fuel e s)

  pub Keeps-add_children :
      (rounds fuel : ℕ) (children : List DirectoryEntry) (ptr : LinkPointer)
      → Keeps view (add_children sectors recast rounds fuel children ptr)
  unfolding add_children
  Keeps-add_children zero fuel children ptr =
      Keeps-if view (is_direct ptr) _ _ (Keeps-diverge view _) (Keeps-pure view children)
  Keeps-add_children (suc rounds) fuel children ptr =
      Keeps-if view (is_direct ptr) _ _
        (Keeps-bind view (read_sector sectors ptr.start) _
          (Keeps-read_sector view sectors ptr.start)
          (λ sector.
            Keeps-bind view (keep_entries sectors recast fuel (as_dir recast sector).entries) _
              (Keeps-keep_entries fuel (as_dir recast sector).entries)
              (λ kept.
                Keeps-add_children rounds fuel (children ++ kept) (as_dir recast sector).next)))
        (Keeps-pure view children)

  pub Keeps-from_dir_block :
      (fuel : ℕ) (b : DirBlock) (name : List ℕ) (head : LinkPointer)
      → Keeps view (from_dir_block sectors recast fuel b name head)
  unfolding from_dir_block
  Keeps-from_dir_block fuel b name head =
      Keeps-bind view (add_children sectors recast fuel fuel [] head) _
        (Keeps-add_children fuel fuel [] head) (λ children. Keeps-pure view _)

  pub Keeps-open_entry :
      (fuel : ℕ) (e : DirectoryEntry) → Keeps view (open_entry sectors recast fuel e)
  unfolding open_entry
  Keeps-open_entry fuel (file_entry f) = Keeps-fail view _ bad_file_type
  Keeps-open_entry fuel (symlink_entry label dest) = Keeps-fail view _ bad_file_type
  Keeps-open_entry fuel (dir_entry label link) =
      Keeps-bind view (read_sector sectors link.start) _ (Keeps-read_sector view sectors link.start)
        (λ sector. Keeps-from_dir_block fuel (as_dir recast sector) label link)

-- Deletion leaves the cached root as it was.
module _ (sectors : ℕ) (recast : Recast) where
  Keeps-free_direct : (ls : List LinkPointer) → Keeps the_root (free_direct sectors recast ls)
  unfolding free_direct
  Keeps-free_direct [] = Keeps-pure the_root tt
  Keeps-free_direct (l ∷ rest) =
      Keeps-then the_root _ _ (Keeps-free_run l.start (div_ceil l.size 512)) (
        Keeps-then the_root _ _ (Keeps-zero_run sectors l.start (div_ceil l.size 512))
          (Keeps-free_direct rest))

  pub Keeps-free_indirect :
      (ls : List LinkPointer) → Keeps the_root (free_indirect sectors recast ls)
  unfolding free_indirect
  Keeps-free_indirect [] = Keeps-pure the_root tt
  Keeps-free_indirect (l ∷ rest) =
      Keeps-then the_root _ _ (Keeps-free_run l.start 1)
        (Keeps-then the_root _ _ (Keeps-zero_run sectors l.start 1) (Keeps-free_indirect rest))

  pub Keeps-delete_file : (fuel : ℕ) (f : File) → Keeps the_root (delete_file sectors recast fuel f)
  unfolding delete_file
  Keeps-delete_file fuel f =
      Keeps-bind the_root _ _ (Keeps-trace_from the_root sectors recast fuel f.head)
        (λ links. Keeps-then the_root _ _ (Keeps-free_direct links.0) (Keeps-free_indirect links.1))

  Keeps-delete_blocks :
      (rounds : ℕ) (p : LinkPointer) → Keeps the_root (delete_blocks sectors recast rounds p)
  unfolding delete_blocks
  Keeps-delete_blocks zero p =
      Keeps-if the_root (is_valid p && is_direct p) _ _ (Keeps-diverge the_root _)
        (Keeps-pure the_root _)
  Keeps-delete_blocks (suc rounds) p =
      Keeps-if the_root (is_valid p && is_direct p) _ _
        (Keeps-bind the_root _ _ (Keeps-read_sector the_root sectors p.start) (λ sector.
          Keeps-then the_root _ _ (Keeps-free_run p.start 1) (
            Keeps-then the_root _ _ (Keeps-zero_run sectors p.start 1)
              (Keeps-delete_blocks rounds (as_dir recast sector).next))))
        (Keeps-pure the_root _)

  Keeps-delete_children :
      (fuel : ℕ) (inner : Directory → M (Unit {0}))
      → ((d : Directory) → Keeps the_root (inner d))
      → (es : List DirectoryEntry) → Keeps the_root (delete_children sectors recast fuel inner es)
  unfolding delete_children
  Keeps-delete_children fuel inner h [] = Keeps-pure the_root tt
  Keeps-delete_children fuel inner h (file_entry f ∷ rest) =
      Keeps-then the_root _ _ (Keeps-delete_file fuel f) (Keeps-delete_children fuel inner h rest)
  Keeps-delete_children fuel inner h (dir_entry label link ∷ rest) =
      Keeps-bind the_root _ _ (Keeps-read_sector the_root sectors link.start) (λ sector.
        Keeps-bind the_root _ _
          (Keeps-from_dir_block the_root sectors recast fuel (as_dir recast sector) (from_str [])
            link)
          (λ d. Keeps-then the_root _ _ (h d) (Keeps-delete_children fuel inner h rest)))
  Keeps-delete_children fuel inner h (symlink_entry label dest ∷ rest) =
      Keeps-delete_children fuel inner h rest

  pub Keeps-delete_directory :
      (depth fuel : ℕ) (d : Directory)
      → Keeps the_root (delete_directory sectors recast depth fuel d)
  unfolding delete_directory
  Keeps-delete_directory zero fuel d = Keeps-diverge the_root _
  Keeps-delete_directory (suc depth) fuel d =
      Keeps-then the_root _ _
        (Keeps-delete_children fuel (delete_directory sectors recast depth fuel)
          (Keeps-delete_directory depth fuel) d.children)
        (Keeps-delete_blocks fuel d.head)
