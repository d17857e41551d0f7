-- ===== src/Fs/LemonFs/RootCache.antt =====
-- What the operations of LemonFS on a path whose parent is the root do to the cached root.
use maram_os.Base.{
  ℕ, ◌≡◌, refl, true, Option, none, some, List, [], ◌∷◌, ◌∙◌, ap, sym, subst, Bool-cases, inl, inr,
}
use mathlib.Core.List.{Perm}
use maram_os.Fs.Path.{components, is_root, parent, name, slash, split, keep_components}
use maram_os.Fs.Store.{
  Recast, ok, DirectoryEntry, file_entry, dir_entry, symlink_entry, LemonFs, M, of_option, FsError,
}
use maram_os.Fs.Store.Keeps.{Keeps, the_root, Keeps-bind, Keeps-pure, bind_ok}
use maram_os.Fs.Directory.{find_child_idx, get_child}
use maram_os.Fs.Directory.Lookup.{same_str_sound, find_child_idx-get_child}
use maram_os.Fs.Directory.Keeps.{Keeps-delete_file, Keeps-open_entry, Keeps-delete_directory}
use maram_os.Fs.Directory.Sync.{sync}
use maram_os.Fs.Directory.Sync.Keeps.{Keeps-sync}
use maram_os.Fs.LemonFs.Paths.{root_dir, get_parent, walk_path}
use maram_os.Fs.LemonFs.Entries.{swap_remove, delete, delete_entry, uncache}
use maram_os.Fs.LemonFs.SwapRemove.{swap_remove-Perm}

of_option_ok :
    {A : Type 0} (o : Option A) (e : FsError) (s : LemonFs) (a : A)
    → (of_option o e s).0 ≡ ok a
    → (o ≡ some a) × ((of_option o e s).1 ≡ s)
of_option_ok none e s a h = absurd (cc h)
of_option_ok (some b) e s a h = (cc h, refl)

pub Keeps-root : {A : Type 0} (m : M A) → Keeps the_root m → (s : LemonFs) → (m s).1.root ≡ s.root
unfolding Keeps
Keeps-root m h s = h s

components-slash : components (slash ∷ []) ≡ []
unfolding components split keep_components
components-slash = refl

components-root : (p : List ℕ) → is_root p ≡ true → components p ≡ []
unfolding is_root
components-root p h = ap components (same_str_sound p (slash ∷ []) h) ∙ components-slash

module _ (sectors : ℕ) (recast : Recast) where
  pub get_parent-root :
      (fuel : ℕ) (path : List ℕ) (s : LemonFs)
      → is_root (parent path) ≡ true
      → get_parent sectors recast fuel path s ≡ (ok (root_dir s), s)
  unfolding get_parent walk_path
  get_parent-root fuel path s h =
      ap (λ parts. walk_path sectors recast fuel (root_dir s) parts s)
        (components-root (parent path) h)

  Keeps-delete_entry :
      (fuel : ℕ) (e : DirectoryEntry) → Keeps the_root (delete_entry sectors recast fuel e)
  unfolding delete_entry
  Keeps-delete_entry fuel (file_entry f) = Keeps-delete_file sectors recast fuel f
  Keeps-delete_entry fuel (dir_entry label link) =
      Keeps-bind the_root _ _ (Keeps-open_entry the_root sectors recast fuel (dir_entry label link))
        (λ d. Keeps-delete_directory sectors recast fuel fuel d)
  Keeps-delete_entry fuel (symlink_entry label dest) = Keeps-pure the_root tt

  uncache_root :
      (path : List ℕ) (i : ℕ) (e : DirectoryEntry) (rest : List DirectoryEntry) (v : LemonFs)
      → is_root (parent path) ≡ true
      → find_child_idx v.root (name path) ≡ some i
      → swap_remove v.root i ≡ some (e, rest)
      → uncache sectors recast path v ≡ (ok tt, record v { root = rest })
  unfolding uncache
  uncache_root path i e rest v at_root at_i taken = rw (at_root, at_i, taken) refl

  -- Deleting a path whose parent is the root, when it succeeds, takes the child that was found
  -- under its name, and nothing else, from the cached root, up to the order of the entries.
  pub delete-Perm :
      (fuel : ℕ) (path : List ℕ) (s t : LemonFs)
      → is_root (parent path) ≡ true
      → delete sectors recast fuel path s ≡ (ok tt, t)
      → (e : DirectoryEntry) × (get_child s.root (name path) ≡ some e) × Perm s.root (e ∷ t.root)
  unfolding delete root_dir
  delete-Perm fuel path s t at_root h = elim (Bool-cases (is_root path)) [
    | inl e ↦ absurd (cc (ap (λ p. p.0) (rw e at h)))
    | inr e ↦
        let h1 = rw (e, get_parent-root fuel path s at_root) at h in
        elim (find_child_idx-get_child s.root (name path)) [
          | inl (no_index, no_child) ↦ absurd (cc (ap (λ p. p.0) (rw no_index at h1)))
          | inr (i, f, at_i, child, elem, same) ↦
              let taken = swap_remove-Perm s.root i f elem in
              let h2 = rw (at_i, taken.1) at h1 in
              let deleted = bind_ok (delete_entry sectors recast fuel f) _ s tt t h2 in
              let u = (delete_entry sectors recast fuel f s).1 in
              let dir = record (root_dir s) { children = taken.0 } in
              let synced = bind_ok (sync sectors recast fuel dir) _ u tt t deleted.2 in
              let v = (sync sectors recast fuel dir u).1 in
              let same_root : v.root ≡ s.root =
                Keeps-root (sync sectors recast fuel dir) (Keeps-sync sectors recast fuel dir) u
                ∙ Keeps-root (delete_entry sectors recast fuel f) (Keeps-delete_entry fuel f) s in
              let rest_root : taken.0 ≡ t.root =
                ap (λ p. p.1.root)
                  (sym (
                      uncache_root path i f taken.0 v at_root
                        (subst (λ r. find_child_idx r (name path) ≡ some i) (sym same_root) at_i)
                        (subst (λ r. swap_remove r i ≡ some (f, taken.0)) (sym same_root) taken.1))
                    ∙ synced.2) in
              (f, child, subst (λ r. Perm s.root (f ∷ r)) rest_root taken.2)
        ]
  ]
