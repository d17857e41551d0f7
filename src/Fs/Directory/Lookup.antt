-- ===== src/Fs/Directory/Lookup.antt =====
-- The two ways to look a child up agree, and what an added and a replaced child do to them.
use maram_os.Base.{
  ℕ, suc, ◌≡◌, refl, true, ◌==◌, ==_iff, none, some, List, [], ◌∷◌, ◌++◌, ◌∙◌, ap, subst,
  if◌then◌else◌, Bool-cases, Option-cases, inl, inr, get_elem?, set, ◌⊎◌,
}
use maram_os.Fs.Path.{same_str}
use maram_os.Fs.Store.{DirectoryEntry}
use maram_os.Fs.Directory.{find_child_idx, get_child, entry_name}

pub same_str_sound : (a b : List ℕ) → same_str a b ≡ true → a ≡ b
unfolding same_str
same_str_sound [] [] h = refl
same_str_sound [] (y ∷ b) h = absurd (cc h)
same_str_sound (x ∷ a) [] h = absurd (cc h)
same_str_sound (x ∷ a) (y ∷ b) h = elim (Bool-cases (x == y)) [
  | inl e ↦
      let k = rw e at h in
      ap (λ r. r ∷ a) ((==_iff x y).0 e) ∙ ap (λ r. y ∷ r) (same_str_sound a b k)
  | inr e ↦ absurd (cc (rw e at h))
]

-- A child is found under an index if and only if it is found, and the index is the child's.
pub find_child_idx-get_child :
    (es : List DirectoryEntry) (n : List ℕ)
    → ((find_child_idx es n ≡ none) × (get_child es n ≡ none))
      ⊎ ((i : ℕ) × (e : DirectoryEntry) × (find_child_idx es n ≡ some i)
          × (get_child es n ≡ some e)
          × (get_elem? es i ≡ some e)
          × (same_str (entry_name e) n ≡ true))
unfolding find_child_idx get_child
find_child_idx-get_child [] n = inl (refl, refl)
find_child_idx-get_child (e ∷ rest) n =
    let ih = find_child_idx-get_child rest n in
    elim (Bool-cases (same_str (entry_name e) n)) [
      | inl h ↦ inr (0, e, rw h refl, rw h refl, refl, h)
      | inr h ↦ elim ih [
        | inl (no_index, no_child) ↦ inl (rw (h, no_index) refl, rw (h, no_child) refl)
        | inr (i, f, at_i, child, elem, same) ↦
            inr (suc i, f, rw (h, at_i) refl, rw (h, child) refl, elem, same)
      ]
    ]

-- A child with another name, added at the end, is not found either.
pub get_child-append :
    (es : List DirectoryEntry) (e : DirectoryEntry) (n : List ℕ)
    → get_child es n ≡ none
    → get_child (es ++ e ∷ []) n ≡ (if same_str (entry_name e) n then some e else none)
unfolding get_child
get_child-append [] e n h = refl
get_child-append (f ∷ rest) e n h = elim (Bool-cases (same_str (entry_name f) n)) [
  | inl same ↦ absurd (cc (rw same at h))
  | inr other ↦ let ih = get_child-append rest e n (rw other at h) in rw other ih
]

-- The first child with a name, replaced by one of that name, is found.
pub get_child-set :
    (es : List DirectoryEntry) (n : List ℕ) (i : ℕ) (e : DirectoryEntry)
    → find_child_idx es n ≡ some i
    → same_str (entry_name e) n ≡ true
    → get_child (set es i e) n ≡ some e
unfolding get_child find_child_idx
get_child-set [] n i e h same = absurd (cc h)
get_child-set (f ∷ rest) n i e h same = elim (Bool-cases (same_str (entry_name f) n)) [
  | inl first ↦
      let k : 0 ≡ i = cc (rw first at h) in
      subst (λ j. get_child (set (f ∷ rest) j e) n ≡ some e) k (rw same refl)
  | inr other ↦ elim (Option-cases (find_child_idx rest n)) [
    | inl none_ ↦ absurd (cc (rw (other, none_) at h))
    | inr (j, at_j) ↦
        let ih = get_child-set rest n j e at_j same in
        let k : suc j ≡ i = cc (rw (other, at_j) at h) in
        subst (λ k. get_child (set (f ∷ rest) k e) n ≡ some e) k (rw other ih)
  ]
]
