-- ===== src/Fs/LemonFs/RootWrite.antt =====
-- What `write` of LemonFS does to the cached root: the links of the written file stay as they were.
use maram_os.Base.{
  ℕ, suc, zero, ◌+◌, ◌*◌, ◌≡◌, refl, true, false, ◌==◌, leb, ltb, some, List, [], ◌∷◌, ◌++◌, ◌∙◌,
  ap, sym, subst, if◌then◌else◌, Bool-cases, inl, inr, get_elem?, set, length, drop, div_ceil, min,
  arith,
}
use maram_os.Fs.Links.{LinkPointer}
use maram_os.Fs.Path.{to_str, is_root, parent, name, same_str}
use maram_os.Fs.Sectors.{page_size}
use maram_os.Fs.Store.{
  link_sector, Recast, ok, File, DirectoryEntry, file_entry, dir_entry, symlink_entry, LemonFs, M,
  no_space,
}
use maram_os.Fs.Store.Keeps.{
  Keeps, the_root, Keeps-bind, Keeps-then, Keeps-pure, Keeps-halt, Keeps-if, Keeps-of_option,
  Keeps-alloc_block, Keeps-free_run, Keeps-zero_run, bind_ok, Gives, Gives-bind, Gives-pure,
}
use maram_os.Fs.LemonFs.Route.{recache_root}
use maram_os.Fs.Directory.{
  find_child_idx, get_child, entry_name, resolve, trace_from, free_indirect, sum_sizes,
}
use maram_os.Fs.Directory.Keeps.{Keeps-resolve, Keeps-trace_from, Keeps-free_indirect}
use maram_os.Fs.Directory.Lookup.{find_child_idx-get_child, get_child-set}
use maram_os.Fs.Directory.Sync.{sync, build_chain}
use maram_os.Fs.Directory.Sync.Keeps.{Keeps-sync, Keeps-build_chain, Keeps-write_each, Keeps-elim}
use maram_os.Fs.LemonFs.Paths.{root_dir}
use maram_os.Fs.LemonFs.Chain.{
  coalesce_blocks, alloc_each, link_block_at, build_file_chain, blocks_of,
}
use maram_os.Fs.LemonFs.Contents.{
  Page, write_run, free_surplus, write_links, fill_links, write_file, write_child, write, read,
  read_links,
}
use maram_os.Fs.LemonFs.RootCache.{get_parent-root, Keeps-root}

Keeps-alloc_each : (rounds : ℕ) (lbas : List ℕ) → Keeps the_root (alloc_each rounds lbas)
unfolding alloc_each
Keeps-alloc_each zero lbas = Keeps-pure the_root lbas
Keeps-alloc_each (suc rounds) lbas = Keeps-bind the_root _ _ Keeps-alloc_block (λ block.
    Keeps-bind the_root _ _ (Keeps-of_option the_root block no_space)
      (λ lba. Keeps-alloc_each rounds (lbas ++ lba ∷ [])))

module _ (sectors : ℕ) (recast : Recast) where
  Keeps-build_file_chain : (blocks : List ℕ) → Keeps the_root (build_file_chain sectors blocks)
  unfolding build_file_chain
  Keeps-build_file_chain blocks =
      let extents = coalesce_blocks [] blocks in
      Keeps-if the_root (length extents == 1) _ _
        (Keeps-elim (get_elem? extents 0) _ _ (Keeps-halt the_root _) (λ e. Keeps-pure the_root e))
        (Keeps-bind the_root _ _ (Keeps-alloc_each (div_ceil (length extents) 31) []) (λ lbas.
          Keeps-then the_root _ _
            (Keeps-write_each sectors lbas (λ i. link_sector (link_block_at extents lbas i))
              (div_ceil (length extents) 31) 0)
            (Keeps-elim (get_elem? lbas 0) _ _ (Keeps-halt the_root _)
              (λ lba. Keeps-pure the_root _))))

  Keeps-free_surplus : (blocks : List ℕ) → Keeps the_root (free_surplus sectors recast blocks)
  unfolding free_surplus
  Keeps-free_surplus [] = Keeps-pure the_root tt
  Keeps-free_surplus (block ∷ rest) =
      Keeps-then the_root _ _ (Keeps-free_run block 1)
        (Keeps-then the_root _ _ (Keeps-zero_run sectors block 1) (Keeps-free_surplus rest))

  Keeps-write_run :
      (start count : ℕ) (bytes : ℕ → ℕ)
      → Keeps the_root (write_run sectors recast start count bytes)
  unfolding Keeps write_run
  Keeps-write_run start count bytes = λ s. elim (Bool-cases (count == 0)) [
    | inl e ↦ rw (the_root, e) refl
    | inr e ↦ elim (Bool-cases (leb (start + count) sectors)) [
      | inl f ↦ rw (the_root, e, f) refl
      | inr f ↦ rw (the_root, e, f) refl
    ]
  ]

  Keeps-write_links :
      (ls : List LinkPointer) (offset : ℕ) (src : ℕ → ℕ)
      → Keeps the_root (write_links sectors recast ls offset src)
  unfolding write_links
  Keeps-write_links [] offset src = Keeps-pure the_root tt
  Keeps-write_links (l ∷ rest) offset src =
      Keeps-then the_root _ _
        (Keeps-write_run l.start (div_ceil l.size 512)
          (λ i. if ltb i l.size then src (offset + i) else 0))
        (Keeps-write_links rest (offset + l.size) src)

  Keeps-fill_links :
      (ls : List LinkPointer) (src : ℕ → ℕ) → Keeps the_root (fill_links sectors recast ls src)
  Keeps-fill_links [] src = Keeps-halt the_root _
  Keeps-fill_links (l ∷ rest) src = Keeps-write_links (l ∷ rest) 0 src

  Keeps-write_file :
      (fuel : ℕ) (f : File) (src : Page) → Keeps the_root (write_file sectors recast fuel f src)
  unfolding write_file
  Keeps-write_file fuel f src =
      let count = div_ceil (src.count * page_size) 512 in
      Keeps-bind the_root _ _ (Keeps-trace_from the_root sectors recast fuel f.head) (λ old.
        Keeps-then the_root _ _ (Keeps-free_indirect sectors recast old.1) (
          Keeps-bind the_root _ _ (Keeps-build_chain (blocks_of old.0) count 0 []) (λ chain.
            Keeps-then the_root _ _ (Keeps-free_surplus (drop count (blocks_of old.0))) (
              Keeps-bind the_root _ _ (Keeps-build_file_chain chain) (λ head.
                Keeps-bind the_root _ _ (Keeps-resolve the_root sectors recast fuel head) (λ links.
                  Keeps-then the_root _ _ (Keeps-fill_links links src.bytes)
                    (Keeps-pure the_root _)))))))

  -- The file that a write gives has the name and the links of the one before.
  Gives-write_file :
      (fuel : ℕ) (f : File) (src : Page)
      → Gives (λ g. (g.name ≡ f.name) × (g.links ≡ f.links)) (write_file sectors recast fuel f src)
  unfolding write_file
  Gives-write_file fuel f src =
      let P : File → Type 0 = λ g. (g.name ≡ f.name) × (g.links ≡ f.links) in
      let count = div_ceil (src.count * page_size) 512 in
      Gives-bind P (trace_from sectors recast fuel f.head) _ (λ old.
        Gives-bind P (free_indirect sectors recast old.1) _ (λ u.
          Gives-bind P (build_chain (blocks_of old.0) count 0 []) _ (λ chain.
            Gives-bind P (free_surplus sectors recast (drop count (blocks_of old.0))) _ (λ u'.
              Gives-bind P (build_file_chain sectors chain) _ (λ head.
                Gives-bind P (resolve sectors recast fuel head) _ (λ links.
                  Gives-bind P (fill_links sectors recast links src.bytes) _ (λ u''.
                    Gives-pure P (record f { head = head; size = sum_sizes links })
                      (refl, refl))))))))

  gives :
      {A : Type 0} (P : A → Type 0) (m : M A) (s : LemonFs) (a : A)
      → Gives P m
      → (m s).0 ≡ ok a
      → P a
  unfolding Gives
  gives P m s a h e = h s a (m s).1 (ap (λ o. (o, (m s).1)) e)

  -- Writing a file whose parent is the root, when it succeeds, leaves the links of the file in the
  -- cached root as they were, although its blocks are others.
  write-links :
      (fuel : ℕ) (path : List ℕ) (src : Page) (s t : LemonFs)
      → is_root (parent path) ≡ true
      → write sectors recast fuel path src s ≡ (ok tt, t)
      → (f g : File) × (get_child s.root (name path) ≡ some (file_entry f))
        × (get_child t.root (name path) ≡ some (file_entry g))
        × (g.links ≡ f.links)
  unfolding write root_dir
  write-links fuel path src s t at_root h = elim (Bool-cases (is_root path)) [
    | inl e ↦ absurd (cc (ap (λ p. p.0) (rw e at h)))
    | inr e ↦
        let h1 = rw (e, get_parent-root sectors recast fuel path s at_root) at h in
        elim (find_child_idx-get_child s.root (name path)) [
          | inl (no_index, no_child) ↦ absurd (cc (ap (λ p. p.0) (rw no_index at h1)))
          | inr (i, entry, at_i, child, elem, same) ↦
              written fuel path src s t i entry at_root at_i child same (rw (at_i, elem) at h1)
        ]
  ]
    where
      written :
          (fuel : ℕ) (path : List ℕ) (src : Page) (s t : LemonFs) (i : ℕ) (entry : DirectoryEntry)
          → is_root (parent path) ≡ true
          → find_child_idx s.root (name path) ≡ some i
          → get_child s.root (name path) ≡ some entry
          → same_str (entry_name entry) (name path) ≡ true
          → write_child sectors recast fuel path src (root_dir s) i entry s ≡ (ok tt, t)
          → (f g : File) × (get_child s.root (name path) ≡ some (file_entry f))
            × (get_child t.root (name path) ≡ some (file_entry g))
            × (g.links ≡ f.links)
      written fuel path src s t i (dir_entry label link) at_root at_i child same h =
          absurd (cc (ap (λ p. p.0) h))
      written fuel path src s t i (symlink_entry label dest) at_root at_i child same h =
          absurd (cc (ap (λ p. p.0) h))
      written fuel path src s t i (file_entry f) at_root at_i child same h =
          let wrote = bind_ok (write_file sectors recast fuel f src) _ s tt t h in
          let g = wrote.0 in
          let like =
            gives (λ g. (g.name ≡ f.name) × (g.links ≡ f.links))
              (write_file sectors recast fuel f src) s g (Gives-write_file fuel f src) wrote.1 in
          let dir = record (root_dir s) { children = set s.root i (file_entry g) } in
          let u = (write_file sectors recast fuel f src s).1 in
          let synced = bind_ok (sync sectors recast fuel dir) _ u tt t wrote.2 in
          let v = (sync sectors recast fuel dir u).1 in
          let same_root : v.root ≡ s.root =
            Keeps-root (sync sectors recast fuel dir) (Keeps-sync sectors recast fuel dir) u
            ∙ Keeps-root (write_file sectors recast fuel f src) (Keeps-write_file fuel f src) s in
          let cached : t.root ≡ set v.root i (file_entry g) =
            ap (λ p. p.1.root)
              (sym synced.2
                ∙ recache_root path i (file_entry g) v at_root
                    (subst (λ r. find_child_idx r (name path) ≡ some i) (sym same_root) at_i)) in
          (
            f,
            g,
            child,
            ap (λ r. get_child r (name path)) (cached ∙ ap (λ r. set r i (file_entry g)) same_root)
                ∙ get_child-set s.root (name path) i (file_entry g) at_i
                    (ap (λ n. same_str (to_str n) (name path)) like.0 ∙ same),
            like.1,
          )

  -- A file whose parent is the root, and which is cached without links, as a new file is, is
  -- still read as empty after a successful write: nothing of the destination changes, whatever
  -- was written.
  pub write-read :
      (fuel : ℕ) (path : List ℕ) (src dest : Page) (f : File) (s t : LemonFs)
      → is_root path ≡ false
      → is_root (parent path) ≡ true
      → get_child s.root (name path) ≡ some (file_entry f)
      → f.links ≡ []
      → write sectors recast fuel path src s ≡ (ok tt, t)
      → read sectors recast fuel path dest t ≡ (ok (0, dest.bytes), t)
  unfolding read root_dir read_links
  write-read fuel path src dest f s t not_root at_root child empty h =
      let w = write-links fuel path src s t at_root h in
      let g = w.1 in
      let same : file_entry w.0 ≡ file_entry f = cc (sym w.2 ∙ child) in
      let g_empty : g.links ≡ [] = w.4 ∙ ap (λ e. links_in e) same ∙ empty in
      let none_read : min 0 (dest.count * page_size) ≡ 0 = omega arith in
      rw (not_root, get_parent-root sectors recast fuel path t at_root, w.3, g_empty)
        (ap (λ k. (ok (k, dest.bytes), t)) none_read)
    where
      links_in : DirectoryEntry → List LinkPointer
      links_in (file_entry f) = f.links
      links_in (dir_entry label link) = []
      links_in (symlink_entry label dest) = []
