-- ===== src/Fs/LemonFs/Route.antt =====
-- What `route_symlink` of LemonFS leaves of the cached root.
use maram_os.Base.{
  ℕ, suc, true, ◌≡◌, refl, none, some, List, [], ◌∷◌, ◌∙◌, ap, sym, subst, Bool-cases, Option-cases,
  inl, inr, get_elem?, set, Option,
}
use maram_os.Fs.Path.{slash, to_str, is_root, parent, name, same_str}
use maram_os.Fs.Store.{
  ok, Recast, LemonFs, DirectoryEntry, file_entry, dir_entry, symlink_entry, M, bad_file_type,
  file_not_found, is_root_error, of_option, ◌>>=◌, halt,
}
use maram_os.Fs.Store.Keeps.{
  bind_ok, Keeps, the_root, Keeps-bind, Keeps-then, Keeps-pure, Keeps-fail, Keeps-halt,
  Keeps-of_option, Keeps-if,
}
use maram_os.Fs.Directory.{get_child, Directory, find_child_idx, entry_name}
use maram_os.Fs.Directory.Lookup.{get_child-set, same_str_sound, find_child_idx-get_child}
use maram_os.Fs.Directory.Sync.Keeps.{Keeps-sync}
use maram_os.Fs.LemonFs.Queries.{Keeps-get_parent}
use maram_os.Fs.LemonFs.Contents.{target_of, find_target, recache, route_child, route_symlink}
use maram_os.Fs.Directory.Sync.{sync}
use maram_os.Fs.Links.{LinkPointer}
use maram_os.Fs.LemonFs.RootCache.{get_parent-root, Keeps-root}
use maram_os.Fs.LemonFs.Paths.{root_dir}

abbrev pub names : List DirectoryEntry → List (List ℕ)
names [] = []
names (e ∷ rest) = entry_name e ∷ names rest

abbrev pub root_names : LemonFs → List (List ℕ)
root_names s = names s.root

-- The first child of a name, replaced by one of that name.
names-set :
    (es : List DirectoryEntry) (n : List ℕ) (i : ℕ) (e : DirectoryEntry)
    → find_child_idx es n ≡ some i
    → entry_name e ≡ n
    → names (set es i e) ≡ names es
unfolding find_child_idx
names-set [] n i e h same = refl
names-set (f ∷ rest) n i e h same = elim (Bool-cases (same_str (entry_name f) n)) [
  | inl first ↦
      let k : 0 ≡ i = cc (rw first at h) in
      subst (λ j. names (set (f ∷ rest) j e) ≡ names (f ∷ rest)) k
        (ap (λ m. m ∷ names rest) (same ∙ sym (same_str_sound (entry_name f) n first)))
  | inr other ↦ elim (Option-cases (find_child_idx rest n)) [
    | inl none_ ↦ absurd (cc (rw (other, none_) at h))
    | inr (j, at_j) ↦
        let k : suc j ≡ i = cc (rw (other, at_j) at h) in
        subst (λ x. names (set (f ∷ rest) x e) ≡ names (f ∷ rest)) k
          (ap (λ r. entry_name f ∷ r) (names-set rest n j e at_j same))
  ]
]

-- The child at the index that is found has the name.
child-named :
    (es : List DirectoryEntry) (n : List ℕ) (i : ℕ) (e : DirectoryEntry)
    → find_child_idx es n ≡ some i
    → get_elem? es i ≡ some e
    → entry_name e ≡ n
child-named es n i e h elem = elim (find_child_idx-get_child es n) [
  | inl (no_index, no_child) ↦ absurd (cc (h, no_index))
  | inr (j, f, at_j, child, elem', same) ↦
      let k : i ≡ j = cc (h, at_j) in
      let there : get_elem? es i ≡ some f = subst (λ x. get_elem? es x ≡ some f) (sym k) elem' in
      let equal : f ≡ e = cc (elem, there) in
      ap entry_name (sym equal) ∙ same_str_sound (entry_name f) n same
]

Keeps-names : {A : Type 0} (m : M A) → Keeps the_root m → Keeps root_names m
unfolding Keeps
Keeps-names m h = λ s. ap names (h s)

pub recache_root :
    (path : List ℕ) (i : ℕ) (e : DirectoryEntry) (v : LemonFs)
    → is_root (parent path) ≡ true
    → find_child_idx v.root (name path) ≡ some i
    → recache path e v ≡ (ok tt, record v { root = set v.root i e })
unfolding recache
recache_root path i e v at_root at_i = rw (at_root, at_i) refl

Keeps-recache :
    (path : List ℕ) (e : DirectoryEntry)
    → entry_name e ≡ name path
    → Keeps root_names (recache path e)
unfolding Keeps recache
Keeps-recache path e named = λ s. elim (Bool-cases (is_root (parent path))) [
  | inr below ↦ rw below refl
  | inl in_root ↦ elim (Option-cases (find_child_idx s.root (name path))) [
    | inl q ↦ rw (in_root, q) refl
    | inr (i, q) ↦ rw (in_root, q) (names-set s.root (name path) i e q named)
  ]
]

module _ (sectors : ℕ) (recast : Recast) (fuel : ℕ) where
  Keeps-find_target :
      {B : Type 0} (view : LemonFs → B) (path : List ℕ)
      → Keeps view (find_target sectors recast fuel path)
  unfolding find_target
  Keeps-find_target view path =
      Keeps-bind view _ _ (Keeps-get_parent view sectors recast fuel path) (λ dir.
        Keeps-bind view _ _ (Keeps-of_option view _ file_not_found)
          (λ e. Keeps-pure view (target_of sectors recast e)))

  -- What routing does to the cached root.
  abbrev pub Routed : List ℕ → List ℕ → LemonFs → LemonFs → Type 0
  Routed path dest s t =
      (label : List ℕ) × (old target : LinkPointer) × (get_child s.root (name path)
        ≡ some (symlink_entry label old))
      × ((find_target sectors recast fuel dest s).0 ≡ ok target)
      × (get_child t.root (name path) ≡ some (symlink_entry label target))
      × (root_names t ≡ root_names s)

  Keeps-route_child :
      (path dest : List ℕ) (dir : Directory) (i : ℕ) (e : DirectoryEntry)
      → entry_name e ≡ name path
      → Keeps root_names (route_child sectors recast fuel path dest dir i e)
  Keeps-route_child path dest dir i (file_entry f) named = Keeps-fail root_names _ bad_file_type
  Keeps-route_child path dest dir i (dir_entry label link) named =
      Keeps-fail root_names _ bad_file_type
  Keeps-route_child path dest dir i (symlink_entry label old) named =
      Keeps-bind root_names _ _ (Keeps-find_target root_names dest) (λ target.
        Keeps-then root_names _ _
          (Keeps-names _ (
            Keeps-sync sectors recast fuel
              (record dir { children = set dir.children i (symlink_entry label target) })))
          (Keeps-recache path (symlink_entry label target) named))

  abbrev route_at : List ℕ → List ℕ → Directory → ℕ → Option DirectoryEntry → M (Unit {0})
  route_at path dest dir i none = halt
  route_at path dest dir i (some e) = route_child sectors recast fuel path dest dir i e

  Keeps-route_at :
      (path dest : List ℕ) (dir : Directory) (i : ℕ) (o : Option DirectoryEntry)
      → ((e : DirectoryEntry) → o ≡ some e → entry_name e ≡ name path)
      → Keeps root_names (route_at path dest dir i o)
  Keeps-route_at path dest dir i none named = Keeps-halt root_names _
  Keeps-route_at path dest dir i (some e) named = Keeps-route_child path dest dir i e (named e refl)

  Keeps-route_found :
      (path dest : List ℕ) (dir : Directory) (found : Option ℕ)
      → find_child_idx dir.children (name path) ≡ found
      → Keeps root_names (
          of_option found file_not_found >>= λ i.
          route_at path dest dir i (get_elem? dir.children i))
  unfolding Keeps
  Keeps-route_found path dest dir none q = λ s. refl
  Keeps-route_found path dest dir (some i) q =
      Keeps-route_at path dest dir i (get_elem? dir.children i)
        (λ e elem. child-named dir.children (name path) i e q elem)

  -- Whatever `route_symlink` returns, the entries of the cached root stay as many as they were, in
  -- their order and under their names.
  pub route_symlink-Keeps :
      (path dest : List ℕ) → Keeps root_names (route_symlink sectors recast fuel path dest)
  unfolding route_symlink
  route_symlink-Keeps path dest =
      Keeps-if root_names (is_root path) _ _ (Keeps-fail root_names _ is_root_error) (
        Keeps-bind root_names _ _ (Keeps-get_parent root_names sectors recast fuel (parent path))
          (λ dir. Keeps-route_found path dest dir _ refl))

  unroot : (p : List ℕ) → is_root p ≡ true → p ≡ slash ∷ []
  unfolding is_root
  unroot p h = same_str_sound p (slash ∷ []) h

  root_above : is_root (parent (slash ∷ [])) ≡ true
  unfolding is_root parent
  root_above = refl

  parent_root :
      (path : List ℕ) → is_root (parent path) ≡ true → is_root (parent (parent path)) ≡ true
  parent_root path at_root =
      subst (λ p. is_root (parent p) ≡ true) (sym (unroot (parent path) at_root)) root_above

  routed :
      (path dest : List ℕ) (s t : LemonFs) (i : ℕ) (entry : DirectoryEntry)
      → is_root (parent path) ≡ true
      → find_child_idx s.root (name path) ≡ some i
      → get_child s.root (name path) ≡ some entry
      → same_str (entry_name entry) (name path) ≡ true
      → route_child sectors recast fuel path dest (root_dir s) i entry s ≡ (ok tt, t)
      → Routed path dest s t
  unfolding root_dir
  routed path dest s t i (file_entry f) at_root at_i child same h = absurd (cc (ap (λ p. p.0) h))
  routed path dest s t i (dir_entry label link) at_root at_i child same h =
      absurd (cc (ap (λ p. p.0) h))
  routed path dest s t i (symlink_entry label old) at_root at_i child same h =
      let found = bind_ok (find_target sectors recast fuel dest) _ s tt t h in
      let link = symlink_entry label found.0 in
      let dir = record (root_dir s) { children = set s.root i link } in
      let u = (find_target sectors recast fuel dest s).1 in
      let synced = bind_ok (sync sectors recast fuel dir) _ u tt t found.2 in
      let v = (sync sectors recast fuel dir u).1 in
      let same_root : v.root ≡ s.root =
        Keeps-root (sync sectors recast fuel dir) (Keeps-sync sectors recast fuel dir) u
        ∙ Keeps-root (find_target sectors recast fuel dest) (Keeps-find_target the_root dest) s in
      let cached : t.root ≡ set v.root i link =
        ap (λ p. p.1.root)
          (sym synced.2
            ∙ recache_root path i link v at_root
                (subst (λ r. find_child_idx r (name path) ≡ some i) (sym same_root) at_i)) in
      let after = cached ∙ ap (λ r. set r i link) same_root in
      (
        label,
        old,
        found.0,
        child,
        found.1,
        ap (λ r. get_child r (name path)) after ∙ get_child-set s.root (name path) i link at_i same,
        ap names after
            ∙ names-set s.root (name path) i link at_i
                (same_str_sound (to_str label) (name path) same),
      )

  -- Routing a path whose parent is the root, when it succeeds, finds a link under its name in the
  -- cached root, which from then on leads to what the destination was found as. The entries of the
  -- cached root stay as many as they were, in their order and under their names.
  pub route_symlink-Routed :
      (path dest : List ℕ) (s t : LemonFs)
      → is_root (parent path) ≡ true
      → route_symlink sectors recast fuel path dest s ≡ (ok tt, t)
      → Routed path dest s t
  unfolding route_symlink root_dir
  route_symlink-Routed path dest s t at_root h = elim (Bool-cases (is_root path)) [
    | inl e ↦ absurd (cc (ap (λ p. p.0) (rw e at h)))
    | inr e ↦
        let h1 =
          rw (e, get_parent-root sectors recast fuel (parent path) s (parent_root path at_root)) at
            h in
        elim (find_child_idx-get_child s.root (name path)) [
          | inl (no_index, no_child) ↦ absurd (cc (ap (λ p. p.0) (rw no_index at h1)))
          | inr (i, entry, at_i, child, elem, same) ↦
              routed path dest s t i entry at_root at_i child same (rw (at_i, elem) at h1)
        ]
  ]
