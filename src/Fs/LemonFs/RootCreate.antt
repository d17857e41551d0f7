-- ===== src/Fs/LemonFs/RootCreate.antt =====
-- What `create` of LemonFS does to the cached root, and which names are found afterwards.
use maram_os.Base.{
  ℕ, suc, zero, ◌<◌, ◌≤◌, ◌≡◌, refl, true, false, ◌==◌, ==_iff, ◌%◌, ltb, leb, none, some, List, [],
  ◌∷◌, ◌++◌, ◌∙◌, ap, sym, if◌then◌else◌, Bool-cases, inl, inr, length, take, All, arith,
}
use maram_os.Fs.Path.{is_root, parent, name, same_str, from_str, to_str, filename_len}
use maram_os.Fs.Path.Laws.{is_utf8, to_str-from_str}
use maram_os.Fs.Store.{Recast, ok, DirectoryEntry, LemonFs, no_space}
use maram_os.Fs.Store.Keeps.{
  Keeps, the_root, Keeps-bind, Keeps-pure, Keeps-of_option, Keeps-alloc_block, bind_ok,
}
use maram_os.Fs.Directory.{
  FileType, plain, directory, symlink, from_dirflags, get_child, entry_name, new_entry,
}
use maram_os.Fs.Directory.Lookup.{find_child_idx-get_child, get_child-append}
use maram_os.Fs.Directory.Sync.{give_child}
use maram_os.Fs.Directory.Sync.Keeps.{Keeps-give_child}
use maram_os.Fs.LemonFs.Paths.{root_dir}
use maram_os.Fs.LemonFs.Entries.{create, start_of}
use maram_os.Fs.LemonFs.RootCache.{get_parent-root, Keeps-root}

same_str_refl : (s : List ℕ) → same_str s s ≡ true
unfolding same_str
same_str_refl [] = refl
same_str_refl (c ∷ rest) = rw ((==_iff c c).1 refl, same_str_refl rest) refl

same_str-take_long : (n : ℕ) (s : List ℕ) → n < length s → same_str (take n s) s ≡ false
unfolding same_str
same_str-take_long zero [] h = absurd (omega arith)
same_str-take_long zero (c ∷ rest) h = refl
same_str-take_long (suc n) [] h = absurd (omega arith)
same_str-take_long (suc n) (c ∷ rest) h =
    let ih = same_str-take_long n rest (omega arith) in rw ((==_iff c c).1 refl, ih) refl

take_all : (n : ℕ) (s : List ℕ) → length s ≤ n → take n s ≡ s
take_all zero [] h = refl
take_all zero (c ∷ rest) h = absurd (omega arith)
take_all (suc n) [] h = refl
take_all (suc n) (c ∷ rest) h = ap (λ r. c ∷ r) (take_all n rest (omega arith))

take-take : (n : ℕ) (s : List ℕ) → take n (take n s) ≡ take n s
take-take zero s = refl
take-take (suc n) [] = refl
take-take (suc n) (c ∷ rest) = ap (λ r. c ∷ r) (take-take n rest)

abbrev pub IsNonzero : List ℕ → Type 0
IsNonzero s = All (λ c. (c == 0) ≡ false) s

take-IsNonzero : (n : ℕ) (s : List ℕ) → IsNonzero s → IsNonzero (take n s)
take-IsNonzero zero s h = tt
take-IsNonzero (suc n) [] h = tt
take-IsNonzero (suc n) (c ∷ rest) (hc, h) = (hc, take-IsNonzero n rest h)

-- The name of a new entry is the start of the name that it was made for.
entry_name-new_entry :
    (s : List ℕ) (start : ℕ) (type_ : FileType)
    → IsNonzero s
    → is_utf8 (take filename_len s) ≡ true
    → entry_name (new_entry (from_str s) start type_) ≡ take filename_len s
entry_name-new_entry s start plain h utf8 =
    ap (λ n. to_str (from_str n)) (to_str-from_str s h utf8)
    ∙ to_str-from_str (take filename_len s) (take-IsNonzero filename_len s h)
        (rw (take-take filename_len s) utf8)
    ∙ take-take filename_len s
entry_name-new_entry s start directory h utf8 = to_str-from_str s h utf8
entry_name-new_entry s start symlink h utf8 = to_str-from_str s h utf8

module _ (sectors : ℕ) (recast : Recast) where
  Keeps-start_of : (type_ : FileType) → Keeps the_root (start_of sectors recast type_)
  unfolding start_of
  Keeps-start_of plain =
      Keeps-bind the_root _ _ Keeps-alloc_block (λ block. Keeps-of_option the_root block no_space)
  Keeps-start_of directory =
      Keeps-bind the_root _ _ Keeps-alloc_block (λ block. Keeps-of_option the_root block no_space)
  Keeps-start_of symlink = Keeps-pure the_root 0

  create-root :
      (fuel : ℕ) (path : List ℕ) (flags : ℕ) (s t : LemonFs)
      → is_root (parent path) ≡ true
      → create sectors recast fuel path flags s ≡ (ok tt, t)
      → (start : ℕ) × (get_child s.root (name path) ≡ none)
        × (t.root
            ≡ s.root ++ new_entry (from_str (name path)) start (from_dirflags (flags % 256)) ∷ [])
  unfolding create root_dir
  create-root fuel path flags s t at_root h = elim (Bool-cases (is_root path)) [
    | inl e ↦ absurd (cc (ap (λ p. p.0) (rw e at h)))
    | inr e ↦
        let h1 = rw (e, get_parent-root sectors recast fuel path s at_root) at h in
        elim (find_child_idx-get_child s.root (name path)) [
          | inr (i, f, at_i, child, elem, same) ↦ absurd (cc (ap (λ p. p.0) (rw at_i at h1)))
          | inl (no_index, no_child) ↦ elim (Bool-cases (ltb 3 (flags % 256))) [
            | inl bad ↦ absurd (cc (ap (λ p. p.0) (rw (no_index, bad) at h1)))
            | inr good ↦
                let h2 = rw (no_index, good) at h1 in
                let type_ = from_dirflags (flags % 256) in
                let started = bind_ok (start_of sectors recast type_) _ s tt t h2 in
                let u = (start_of sectors recast type_ s).1 in
                let entry = new_entry (from_str (name path)) started.0 type_ in
                let given =
                  bind_ok (give_child sectors recast fuel (root_dir s) entry) _ u tt t started.2 in
                let v = (give_child sectors recast fuel (root_dir s) entry u).1 in
                let cached : v.root ++ entry ∷ [] ≡ t.root =
                  ap (λ p. p.1.root) (rw at_root at given.2) in
                let same_root : v.root ≡ s.root =
                  Keeps-root (give_child sectors recast fuel (root_dir s) entry)
                    (Keeps-give_child sectors recast fuel (root_dir s) entry) u
                  ∙ Keeps-root (start_of sectors recast type_) (Keeps-start_of type_) s in
                (started.0, no_child, sym cached ∙ ap (λ r. r ++ entry ∷ []) same_root)
          ]
        ]
  ]

  -- Creating a path whose parent is the root, for a name without zero bytes whose first 36 bytes
  -- are valid UTF-8, so that no character is cut, when it succeeds, adds one entry with the first
  -- 36 bytes of the name at the end of the cached root, where no entry of the name was before. The
  -- entry is found under the name if this has at most 36 bytes; under a longer such name nothing is
  -- found after the creation either.
  pub create-get_child :
      (fuel : ℕ) (path : List ℕ) (flags : ℕ) (s t : LemonFs)
      → is_root (parent path) ≡ true
      → IsNonzero (name path)
      → is_utf8 (take filename_len (name path)) ≡ true
      → create sectors recast fuel path flags s ≡ (ok tt, t)
      → (e : DirectoryEntry) × (get_child s.root (name path) ≡ none)
        × (t.root ≡ s.root ++ e ∷ [])
        × (entry_name e ≡ take filename_len (name path))
        × (get_child t.root (name path)
            ≡ (if leb (length (name path)) filename_len then some e else none))
  create-get_child fuel path flags s t at_root nonzero utf8 h =
      let made = create-root fuel path flags s t at_root h in
      let e = new_entry (from_str (name path)) made.0 (from_dirflags (flags % 256)) in
      let named =
        entry_name-new_entry (name path) made.0 (from_dirflags (flags % 256)) nonzero utf8 in
      (
        e,
        made.1,
        made.2,
        named,
        ap (λ r. get_child r (name path)) made.2
            ∙ get_child-append s.root e (name path) made.1
            ∙ ap (λ n. if same_str n (name path) then some e else none) named
            ∙ ap (λ b. if b then some e else none) (found (name path)),
      )
    where
      found : (n : List ℕ) → same_str (take filename_len n) n ≡ leb (length n) filename_len
      found n = elim (Bool-cases (leb (length n) filename_len)) [
        | inl e ↦ rw (take_all filename_len n (ground arith), e) (same_str_refl n)
        | inr e ↦ rw e (same_str-take_long filename_len n (ground arith))
      ]
