-- ===== src/Fs/Directory/Sync/Roundtrip.antt =====
-- A directory that was written to its chain is read back from it with the same children.
use maram_os.Base.{
  ℕ, suc, zero, ◌+◌, ◌-◌, ◌*◌, ◌≤◌, ◌<◌, ◌≡◌, refl, true, false, Option, none, some, List, [], ◌∷◌,
  ◌++◌, ◌∙◌, ap, sym, subst, get_elem?, get_elem?_below, ltb, length, take, drop, map, replicate,
  All, arith, div_ceil, le-div_ceil, update, update_self, All-get_elem?, append_assoc, append-nil,
}
use maram_os.Fs.Path.{is_empty}
use maram_os.Fs.Store.{
  DirBlock, zero_entry, null, Sector, dir_sector, Recast, ok, DirectoryEntry, file_entry, dir_entry,
  symlink_entry, LemonFs, read_sector,
}
use maram_os.Fs.Store.Keeps.{bind_ok}
use maram_os.Fs.Directory.{
  Directory, block_link, to_dentry, resolve, sum_sizes, file_from, entry_from, keep_entries,
  add_children,
}
use maram_os.Fs.Directory.Sync.{chunk_at, link_after, write_each, write_dir, blocks_needed}
use maram_os.Fs.Directory.Sync.Written.{write_each-at, write_data_disk}

take-drop : {A : Type 0} (n : ℕ) (xs : List A) → take n xs ++ drop n xs ≡ xs
take-drop zero xs = refl
take-drop (suc n) [] = refl
take-drop (suc n) (x ∷ xs) = ap (λ r. x ∷ r) (take-drop n xs)

drop_nil : (A : Type 0) (n : ℕ) → drop {A = A} n [] ≡ []
drop_nil A zero = refl
drop_nil A (suc n) = refl

drop-drop : {A : Type 0} (n m : ℕ) (xs : List A) → drop m (drop n xs) ≡ drop (n + m) xs
drop-drop zero m xs = let e : m ≡ 0 + m = omega arith in ap (λ k. drop k xs) e
drop-drop (suc n) m [] = drop_nil _ m ∙ sym (drop_nil _ (suc n + m))
drop-drop (suc n) m (x ∷ xs) =
    let e : suc (n + m) ≡ suc n + m = omega arith in
    subst (λ k. drop m (drop n xs) ≡ drop k (x ∷ xs)) e (drop-drop n m xs)

get_elem?_above : {A : Type 0} (xs : List A) (i : ℕ) → length xs ≤ i → get_elem? xs i ≡ none
get_elem?_above [] i h = refl
get_elem?_above (x ∷ xs) zero h = absurd (omega arith)
get_elem?_above (x ∷ xs) (suc i) h = get_elem?_above xs i (omega arith)

drop-short : {A : Type 0} (n : ℕ) (xs : List A) → length xs ≤ n → drop n xs ≡ []
drop-short zero [] h = refl
drop-short zero (x ∷ xs) h = absurd (omega arith)
drop-short (suc n) [] h = refl
drop-short (suc n) (x ∷ xs) h = drop-short n xs (omega arith)

module _ (sectors : ℕ) (recast : Recast) (fuel : ℕ) (t : LemonFs) where
  -- An entry with a name, and for a file, with the links that its head leads to.
  abbrev pub IsReadable : DirectoryEntry → Type 0
  IsReadable (file_entry f) =
      (is_empty f.name ≡ false)
      × (resolve sectors recast fuel f.head t ≡ (ok f.links, t))
      × (f.size ≡ sum_sizes f.links)
  IsReadable (dir_entry label link) = is_empty label ≡ false
  IsReadable (symlink_entry label dest) = is_empty label ≡ false

  entry_from-to_dentry :
      (e : DirectoryEntry)
      → IsReadable e
      → (is_empty (to_dentry e).name ≡ false)
        × (entry_from sectors recast fuel (to_dentry e) t ≡ (ok e, t))
  unfolding to_dentry entry_from file_from
  entry_from-to_dentry (file_entry f) (named, resolved, size) =
      (named, rw resolved (ap (λ n. (ok (file_entry (record f { size = n })), t)) (sym size)))
  entry_from-to_dentry (dir_entry label link) named = (named, refl)
  entry_from-to_dentry (symlink_entry label dest) named = (named, refl)

  keep_zero_entries :
      (n : ℕ) → keep_entries sectors recast fuel (replicate n zero_entry) t ≡ (ok [], t)
  unfolding keep_entries
  keep_zero_entries zero = refl
  keep_zero_entries (suc n) = keep_zero_entries n

  keep_entries-map :
      (es : List DirectoryEntry) (n : ℕ)
      → All IsReadable es
      → keep_entries sectors recast fuel (map to_dentry es ++ replicate n zero_entry) t ≡ (ok es, t)
  unfolding keep_entries
  keep_entries-map [] n h = keep_zero_entries n
  keep_entries-map (e ∷ rest) n (he, h) =
      let ih = keep_entries-map rest n h in
      let r = entry_from-to_dentry e he in rw (r.0, r.1, ih) refl

  add_children-block :
      (rounds : ℕ) (acc : List DirectoryEntry) (lba : ℕ) (b : DirBlock) (kept : List DirectoryEntry)
      → ltb lba sectors ≡ true
      → t.disk lba ≡ dir_sector b
      → keep_entries sectors recast fuel b.entries t ≡ (ok kept, t)
      → add_children sectors recast (suc rounds) fuel acc (block_link lba) t
        ≡ add_children sectors recast rounds fuel (acc ++ kept) b.next t
  unfolding add_children read_sector
  add_children-block rounds acc lba b kept below holds kept_of = rw (below, holds, kept_of) refl

  add_children-null :
      (rounds : ℕ) (acc : List DirectoryEntry)
      → add_children sectors recast rounds fuel acc null t ≡ (ok acc, t)
  unfolding add_children
  add_children-null zero acc = refl
  add_children-null (suc rounds) acc = refl

  All-take : (n : ℕ) (es : List DirectoryEntry) → All IsReadable es → All IsReadable (take n es)
  All-take zero es h = tt
  All-take (suc n) [] h = tt
  All-take (suc n) (e ∷ rest) (he, h) = (he, All-take n rest h)

  All-drop : (n : ℕ) (es : List DirectoryEntry) → All IsReadable es → All IsReadable (drop n es)
  All-drop zero es h = h
  All-drop (suc n) [] h = tt
  All-drop (suc n) (e ∷ rest) (he, h) = All-drop n rest h

  module _ (parent : ℕ) (chain : List ℕ) (children : List DirectoryEntry) where
    -- The chunk with an index and the ones after it.
    chunks :
        (i : ℕ)
        → take 8 (drop (i * 8) children) ++ drop ((i + 1) * 8) children ≡ drop (i * 8) children
    chunks i =
        ap (λ r. take 8 (drop (i * 8) children) ++ r)
          (subst (λ k. drop k children ≡ drop 8 (drop (i * 8) children)) (omega arith)
            (sym (drop-drop (i * 8) 8 children)))
        ∙ take-drop 8 (drop (i * 8) children)

    kept_chunk :
        (i : ℕ)
        → All IsReadable children
        → keep_entries sectors recast fuel (chunk_at parent chain children i).entries t
          ≡ (ok (take 8 (drop (i * 8) children)), t)
    unfolding chunk_at
    kept_chunk i h =
        let chunk = take 8 (drop (i * 8) children) in
        keep_entries-map chunk (8 - length chunk)
          (All-take 8 (drop (i * 8) children) (All-drop (i * 8) children h))

    -- From the block with an index on, a chain that holds the chunks of some children gives the
    -- children of these chunks.
    add_children-chunks :
        (k rounds i lba : ℕ) (acc : List DirectoryEntry)
        → ((j x : ℕ)
            → get_elem? chain j ≡ some x
            → (ltb x sectors ≡ true) × (t.disk x ≡ dir_sector (chunk_at parent chain children j)))
        → All IsReadable children
        → length children ≤ 8 * length chain
        → get_elem? chain i ≡ some lba
        → i + suc k ≡ length chain
        → k < rounds
        → add_children sectors recast rounds fuel acc (block_link lba) t
          ≡ (ok (acc ++ drop (i * 8) children), t)
    unfolding chunk_at
    add_children-chunks k zero i lba acc holds readable fits e h lt = absurd (omega arith)
    add_children-chunks zero (suc rounds) i lba acc holds readable fits e h lt =
        let chunk = take 8 (drop (i * 8) children) in
        add_children-block rounds acc lba (chunk_at parent chain children i) chunk (holds i lba e).0
          (holds i lba e).1 (kept_chunk i readable)
        ∙ ap (λ o. add_children sectors recast rounds fuel (acc ++ chunk) (link_after o) t)
            (get_elem?_above chain (i + 1) (omega arith))
        ∙ add_children-null rounds (acc ++ chunk)
        ∙ ap (λ r. (ok (acc ++ r), t))
            (sym (append-nil chunk)
              ∙ ap (λ r. chunk ++ r) (sym (drop-short ((i + 1) * 8) children (omega arith)))
              ∙ chunks i)
    add_children-chunks (suc k) (suc rounds) i lba acc holds readable fits e h lt =
        let next = get_elem?_below chain (i + 1) (omega arith) in
        let chunk = take 8 (drop (i * 8) children) in
        add_children-block rounds acc lba (chunk_at parent chain children i) chunk (holds i lba e).0
          (holds i lba e).1 (kept_chunk i readable)
        ∙ ap (λ o. add_children sectors recast rounds fuel (acc ++ chunk) (link_after o) t) next.1
        ∙ add_children-chunks k rounds (i + 1) next.0 (acc ++ chunk) holds readable fits next.1
            (omega arith) (omega arith)
        ∙ ap (λ r. (ok r, t))
            (append_assoc acc chunk (drop ((i + 1) * 8) children) ∙ ap (λ r. acc ++ r) (chunks i))

get_elem?-length : (xs : List ℕ) (i x : ℕ) → get_elem? xs i ≡ some x → i < length xs
get_elem?-length [] i x h = absurd (cc h)
get_elem?-length (y ∷ ys) zero x h = omega arith
get_elem?-length (y ∷ ys) (suc i) x h = omega (arith, get_elem?-length ys i x h)

-- What the chain of a written directory holds.
write_dir-chunks :
    (sectors : ℕ) (recast : Recast) (d : Directory) (es : List DirectoryEntry) (chain : List ℕ)
    (s t : LemonFs) (j x : ℕ)
    → ((a b x : ℕ) → get_elem? chain a ≡ some x → get_elem? chain b ≡ some x → a ≡ b)
    → get_elem? chain 0 ≡ some d.head.start
    → length chain ≡ blocks_needed es
    → write_dir sectors recast (record d { children = es }) chain s ≡ (ok tt, t)
    → get_elem? chain j ≡ some x
    → t.disk x ≡ dir_sector (chunk_at d.parent chain es j)
unfolding write_dir write_each chunk_at
write_dir-chunks sectors recast d [] chain s t j x distinct head enough h e =
    let first : 0 ≡ j = omega (arith, get_elem?-length chain j x e) in
    let at_head : d.head.start ≡ x =
      cc (sym head ∙ subst (λ k. get_elem? chain k ≡ some x) (sym first) e) in
    let block : Option ℕ → Sector = λ o.
      dir_sector
        (record { parent = d.parent; entries = replicate 8 zero_entry; next = link_after o }) in
    let alone : get_elem? chain 1 ≡ none = get_elem?_above chain 1 (omega arith) in
    ap (λ p. p.1.disk x) (sym h)
    ∙ ap (λ disk. disk x) (write_data_disk sectors d.head.start (block none) s (ap (λ p. p.0) h))
    ∙ subst (λ k. update s.disk d.head.start (block none) k ≡ block none) at_head
        (update_self s.disk d.head.start (block none))
    ∙ ap block (sym alone)
    ∙ ap (λ k. dir_sector (chunk_at d.parent chain [] k)) first
write_dir-chunks sectors recast d (f ∷ rest) chain s t j x distinct head enough h e =
    let count = div_ceil (length (f ∷ rest)) 8 in
    let block : ℕ → Sector = λ i. dir_sector (chunk_at d.parent chain (f ∷ rest) i) in
    let b = bind_ok (write_each sectors chain block count 0) _ s tt t h in
    let wrote : write_each sectors chain block count 0 s ≡ (ok tt, t) =
      ap (λ o. (o, (write_each sectors chain block count 0 s).1)) b.1 ∙ b.2 in
    write_each-at sectors chain block count 0 s t j x distinct wrote (omega arith)
      (omega (
        arith,
        enough,
        get_elem?-length chain j x e,
        le-div_ceil (length (f ∷ rest)) 8 (omega arith),
      ))
      e

-- A directory that is written to a chain of as many distinct sectors of the disk as it needs, the
-- first one its head, is read back from its head with the same children in the same order, when
-- every child has a name and every file the links and the size that its head leads to.
pub write_dir-add_children :
    (sectors : ℕ) (recast : Recast) (fuel rounds : ℕ) (d : Directory) (chain : List ℕ)
    (s t : LemonFs)
    → ((a b x : ℕ) → get_elem? chain a ≡ some x → get_elem? chain b ≡ some x → a ≡ b)
    → All (λ x. ltb x sectors ≡ true) chain
    → get_elem? chain 0 ≡ some d.head.start
    → length chain ≡ blocks_needed d.children
    → length chain ≤ rounds
    → write_dir sectors recast d chain s ≡ (ok tt, t)
    → All (IsReadable sectors recast fuel t) d.children
    → add_children sectors recast rounds fuel [] (block_link d.head.start) t ≡ (ok d.children, t)
write_dir-add_children sectors recast fuel rounds d chain s t distinct below head enough lt h
      readable =
    add_children-chunks sectors recast fuel t d.parent chain d.children (length chain - 1) rounds 0
      d.head.start []
      (λ j x e. (
        All-get_elem? (λ x. ltb x sectors ≡ true) chain j x below e,
        write_dir-chunks sectors recast d d.children chain s t j x distinct head enough h e,
      ))
      readable (omega (arith, enough, le-div_ceil (length d.children) 8 (omega arith))) head
      (omega (arith, enough)) (omega (arith, enough))
