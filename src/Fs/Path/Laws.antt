-- ===== src/Fs/Path/Laws.antt =====
-- Paths are split and join_parts without loss, and names are kept up to their length.
use maram_os.Base.{
  ℕ, zero, suc, ◌≤◌, ◌&&◌, Bool, arith, drop, ◌-◌, ◌≡◌, ◌≢◌, refl, true, false, min, List, [], ◌∷◌,
  ◌++◌, ◌==◌, ◌∙◌, ap, Bool-cases, inl, inr, All, length, take, replicate,
}
use maram_os.Fs.Path.{
  slash, cons_head, split, is_component, keep_components, components, join_parts, from_vec, init,
  last_or, parent, name, filename_len, from_str, to_str, first_char, lossy, from_utf8_lossy,
  nonzeros,
}

-- A string without '/' that is neither empty nor ".".
abbrev pub IsName : List ℕ → Type 0
IsName p = All (λ c. (c == slash) ≡ false) p × (is_component p ≡ true)

split_joined :
    (p rest : List ℕ)
    → All (λ c. (c == slash) ≡ false) p
    → split (p ++ slash ∷ rest) ≡ p ∷ split rest
unfolding split
split_joined [] rest h = refl
split_joined (c ∷ p) rest (hc, h) = rw (hc, split_joined p rest h) refl

keep_components-split :
    (parts : List (List ℕ)) → All IsName parts → keep_components (split (join_parts parts)) ≡ parts
unfolding split join_parts keep_components
keep_components-split [] h = refl
keep_components-split (p ∷ ps) ((no_slash, is), h) =
    let ih = keep_components-split ps h in
    rw (split_joined p (join_parts ps) no_slash, keep_components, is) (ap (λ r. p ∷ r) ih)

-- The components of a path that `from_vec` makes of names are these names.
pub components-from_vec :
    (parts : List (List ℕ)) → All IsName parts → components (from_vec parts) ≡ parts
unfolding components from_vec split keep_components
components-from_vec parts h = keep_components-split parts h

-- Every component is a name.
cons_head-All :
    (c : ℕ) (ps : List (List ℕ))
    → (c == slash) ≡ false
    → All (All (λ c. (c == slash) ≡ false)) ps
    → All (All (λ c. (c == slash) ≡ false)) (cons_head c ps)
cons_head-All c [] h hs = ((h, tt), tt)
cons_head-All c (p ∷ ps) h (hp, hs) = ((h, hp), hs)

split-All : (s : List ℕ) → All (All (λ c. (c == slash) ≡ false)) (split s)
unfolding split
split-All [] = (tt, tt)
split-All (c ∷ rest) =
    let ih = split-All rest in
    elim (Bool-cases (c == slash)) [
      | inl e ↦ rw e (tt, ih)
      | inr e ↦ rw e (cons_head-All c (split rest) e ih)
    ]

keep-IsName :
    (ps : List (List ℕ))
    → All (All (λ c. (c == slash) ≡ false)) ps
    → All IsName (keep_components ps)
unfolding keep_components
keep-IsName [] h = tt
keep-IsName (p ∷ ps) (hp, h) =
    let ih = keep-IsName ps h in
    elim (Bool-cases (is_component p)) [ inl e ↦ rw e ((hp, e), ih) | inr e ↦ rw e ih ]

components-IsName : (path : List ℕ) → All IsName (components path)
unfolding components
components-IsName path = keep-IsName (split path) (split-All path)

init-All {ℓ κ} : {A : Type ℓ} (P : A → Type κ) (xs : List A) → All P xs → All P (init xs)
unfolding init
init-All P [] h = tt
init-All P (x ∷ []) h = tt
init-All P (x ∷ y ∷ rest) (hx, h) = (hx, init-All P (y ∷ rest) h)

init-last {ℓ} :
    {A : Type ℓ} (d x : A) (xs : List A) → (init (x ∷ xs) ++ last_or d (x ∷ xs) ∷ []) ≡ x ∷ xs
unfolding init last_or
init-last d x [] = refl
init-last d x (y ∷ ys) = ap (λ r. x ∷ r) (init-last x y ys)

-- A path with a component is its parent's components followed by its name.
pub parent-name :
    (path : List ℕ)
    → components path ≢ []
    → (components (parent path) ++ name path ∷ []) ≡ components path
unfolding parent name
parent-name path nonempty = go (components path) nonempty (components-IsName path)
  where
    go :
        (cs : List (List ℕ))
        → cs ≢ []
        → All IsName cs
        → (components (from_vec (init cs)) ++ last_or (slash ∷ []) cs ∷ []) ≡ cs
    go [] h hs = absurd (h refl)
    go (c ∷ cs) h hs =
        ap (λ r. r ++ last_or (slash ∷ []) (c ∷ cs) ∷ [])
          (components-from_vec (init (c ∷ cs)) (init-All IsName (c ∷ cs) hs))
        ∙ init-last (slash ∷ []) c cs

nonzeros_zeros : (n : ℕ) → nonzeros (replicate n 0) ≡ []
unfolding nonzeros
nonzeros_zeros zero = refl
nonzeros_zeros (suc n) = nonzeros_zeros n

nonzeros_taken :
    (n k : ℕ) (s : List ℕ)
    → All (λ c. (c == 0) ≡ false) s
    → nonzeros (take n s ++ replicate k 0) ≡ take n s
unfolding nonzeros
nonzeros_taken zero k s h = nonzeros_zeros k
nonzeros_taken (suc n) k [] h = nonzeros_zeros k
nonzeros_taken (suc n) k (c ∷ rest) (hc, h) = rw hc (ap (λ r. c ∷ r) (nonzeros_taken n k rest h))

-- Whether all of the bytes are characters.
unfoldable pub is_utf8_in : ℕ → List ℕ → Bool
unfolding first_char
is_utf8_in zero bytes = true
is_utf8_in (suc rounds) [] = true
is_utf8_in (suc rounds) (c ∷ rest) =
    let later = is_utf8_in rounds (drop (first_char c rest).1 rest) in
    (first_char c rest).0 && later

unfoldable pub is_utf8 : List ℕ → Bool
unfolding is_utf8_in
is_utf8 bytes = is_utf8_in (length bytes) bytes

take-drop : (n : ℕ) (s : List ℕ) → (take n s ++ drop n s) ≡ s
take-drop zero s = refl
take-drop (suc n) [] = refl
take-drop (suc n) (c ∷ rest) = ap (λ r. c ∷ r) (take-drop n rest)

length-drop : (n : ℕ) (s : List ℕ) → length (drop n s) ≤ length s
length-drop zero s = omega arith
length-drop (suc n) [] = omega arith
length-drop (suc n) (c ∷ rest) = omega (arith, length-drop n rest)

lossy_lem :
    (rounds : ℕ) (s : List ℕ) → length s ≤ rounds → is_utf8_in rounds s ≡ true → lossy rounds s ≡ s
unfolding lossy is_utf8_in
lossy_lem zero [] enough ok = refl
lossy_lem zero (c ∷ rest) enough ok = absurd (omega arith)
lossy_lem (suc rounds) [] enough ok = refl
lossy_lem (suc rounds) (c ∷ rest) enough ok =
    let n = (first_char c rest).1 in
    let first : (first_char c rest).0 ≡ true = ground arith in
    let later : is_utf8_in rounds (drop n rest) ≡ true = ground arith in
    let ih = lossy_lem rounds (drop n rest) (omega (arith, length-drop n rest)) later in
    rw (first, ih) (ap (λ r. c ∷ r) (take-drop n rest))

-- The lossy conversion of valid UTF-8 changes nothing.
pub from_utf8_lossy_lem : (s : List ℕ) → is_utf8 s ≡ true → from_utf8_lossy s ≡ s
unfolding from_utf8_lossy is_utf8
from_utf8_lossy_lem s ok = lossy_lem (length s) s (omega arith) ok

-- A file name keeps the first 36 bytes of a string without zero bytes, and no more, if these are
-- valid UTF-8.
pub to_str-from_str :
    (s : List ℕ)
    → All (λ c. (c == 0) ≡ false) s
    → is_utf8 (take filename_len s) ≡ true
    → to_str (from_str s) ≡ take filename_len s
unfolding from_str to_str
to_str-from_str s h ok =
    ap from_utf8_lossy
      (nonzeros_taken filename_len (filename_len - min (length s) filename_len) s h)
    ∙ from_utf8_lossy_lem (take filename_len s) ok
