-- ===== src/Allocators/Buddy/Chain.antt =====
-- Free lists of kernel/src/allocators/buddy.rs as lists of block addresses.
use maram_os.Base.{
  ℕ, zero, suc, ◌≤◌, ◌<◌, ◌≡◌, ◌≢◌, refl, ◌∙◌, Bool, true, false, ◌||◌, some, List, [], ◌∷◌, arith,
  ◌==◌, if◌then◌else◌, Bool-cases, inl, inr, length, update,
}
use maram_os.Allocators.Buddy.{
  Cell, Buddy, read_next, write_next, set_head, block, remove_from, remove,
}

abbrev pub has : ℕ → List ℕ → Bool
has a [] = false
has a (x ∷ xs) = (a == x) || has a xs

-- The list without the first `a`.
abbrev pub erase : ℕ → List ℕ → List ℕ
erase a [] = []
erase a (x ∷ xs) = if x == a then xs else x ∷ erase a xs

-- From `p` the links lead through the distinct blocks `xs` to the terminator 0.
abbrev pub Chain : (ℕ → Cell) → ℕ → List ℕ → Type 0
Chain m p [] = p ≡ 0
Chain m p (x ∷ xs) = (p ≡ x) × (x ≢ 0) × (has x xs ≡ false) × Chain m (m x).next xs

-- A chain survives every write outside of it.
pub frame :
    (m m' : ℕ → Cell) (p : ℕ) (xs : List ℕ)
    → Chain m p xs
    → ((x : ℕ) → has x xs ≡ true → m' x ≡ m x)
    → Chain m' p xs
frame m m' p [] c same = c
frame m m' p (x ∷ xs) (e, ne, out, c) same = (
  e,
  ne,
  out,
  rw (same x (ground arith)) (frame m m' (m x).next xs c (λ y i. same y (ground arith))),
)

pub has-erase : (y a : ℕ) (xs : List ℕ) → has y xs ≡ false → has y (erase a xs) ≡ false
has-erase y a [] h = refl
has-erase y a (x ∷ xs) h = ground (arith, has-erase y a xs)

pub erase_not : (a : ℕ) (xs : List ℕ) → has a xs ≡ false → erase a xs ≡ xs
erase_not a [] h = refl
erase_not a (x ∷ xs) h = ground (arith, erase_not a xs)

pub has_of-erase : (y a : ℕ) (xs : List ℕ) → has y (erase a xs) ≡ true → has y xs ≡ true
has_of-erase y a [] h = h
has_of-erase y a (x ∷ xs) h = ground (arith, has_of-erase y a xs)

pub length-erase : (a : ℕ) (xs : List ℕ) → length (erase a xs) ≤ length xs
length-erase a [] = omega arith
length-erase a (x ∷ xs) = ground (arith, length-erase a xs)

-- A chain that does not end at once begins with its block.
pub Chain-head :
    (m : ℕ → Cell) (p : ℕ) (xs : List ℕ)
    → (p == 0) ≡ false
    → Chain m p xs
    → (has p xs ≡ true) × Chain m (m p).next (erase p xs)
Chain-head m p [] nz c = absurd (ground arith)
Chain-head m p (x ∷ xs) nz (e, ne, out, c) =
    let self : (x == x) ≡ true = ground arith in rw e (rw self (refl, c))

pub Chain-nil : (m : ℕ → Cell) (p : ℕ) (xs : List ℕ) → p ≡ 0 → Chain m p xs → xs ≡ []
Chain-nil m p [] z c = refl
Chain-nil m p (x ∷ xs) z (e, ne, out, c) = absurd (ne (omega arith))

pub Chain-ne_zero : (m : ℕ → Cell) (p a : ℕ) (xs : List ℕ) → Chain m p xs → has a xs ≡ true → a ≢ 0
Chain-ne_zero m p a [] c h = cc
Chain-ne_zero m p a (x ∷ xs) (e, ne, out, c) h = ground (arith, Chain-ne_zero m (m x).next a xs c)

-- What the walk behind block `p` leaves: the rest of the chain without `addr`.
pub record Walked (b : Buddy) (addr p : ℕ) (xs : List ℕ) (b' : Buddy) : Type 0 where
  pub heads : b'.heads ≡ b.heads
  pub chain : Chain b'.memory (b'.memory p).next (erase addr xs)
  pub same : (a : ℕ) → (a == p) ≡ false → has a xs ≡ false → b'.memory a ≡ b.memory a

-- The walk finds its block at the first cell behind `p`.
Walked-here :
    (b : Buddy) (addr p x : ℕ) (xs : List ℕ)
    → (x == addr) ≡ true
    → has p (x ∷ xs) ≡ false
    → Chain b.memory (b.memory x).next xs
    → Walked b addr p (x ∷ xs) (write_next b p (read_next b x))
unfolding update
Walked-here b addr p x xs hit out c = record {
  heads = refl;
  chain = rw hit (ground (arith, kept));
  same = λ a ne not. ground arith;
}
  where
    kept : Chain (write_next b p (read_next b x)).memory (b.memory x).next xs
    kept =
        frame b.memory (write_next b p (read_next b x)).memory (b.memory x).next xs c
          (λ y i. ground arith)

-- The walk passes the block `x` and finds what it finds behind it.
Walked-past :
    (b b' : Buddy) (addr p x : ℕ) (xs : List ℕ)
    → (x == addr) ≡ false
    → (b.memory p).next ≡ x
    → x ≢ 0
    → has x xs ≡ false
    → has p (x ∷ xs) ≡ false
    → Walked b addr x xs b'
    → Walked b addr p (x ∷ xs) b'
Walked-past b b' addr p x xs miss e ne not out w = record {
  heads = w.heads;
  chain =
      rw miss
        (rw (w.same p (ground arith) (ground arith)) (e, ne, has-erase x addr xs not, w.chain));
  same = λ a d o. w.same a (ground arith) (ground arith);
}

walk :
    (fuel : ℕ) (b : Buddy) (addr order p current : ℕ) (xs : List ℕ)
    → (b.memory p).next ≡ current
    → has p xs ≡ false
    → Chain b.memory current xs
    → length xs < fuel
    → (b' : Buddy) × (remove_from fuel b addr order (block p) current ≡ some (has addr xs, b'))
      × Walked b addr p xs b'
unfolding remove_from
walk zero b addr order p current xs e out c f = absurd (ground arith)
walk (suc fuel) b addr order p current [] e out c f =
    (b, rw c refl, record { heads = refl; chain = ground arith; same = λ a _ _. refl })
walk (suc fuel) b addr order p current (x ∷ xs) e out (here, ne, not, c) f =
    let nz : (x == 0) ≡ false = ground arith in
    rw here (elim (Bool-cases (x == addr)) [
      | inl hit ↦ (
        write_next b p (read_next b x),
        rw (nz, hit) (ground arith),
        Walked-here b addr p x xs hit out c,
      )
      | inr miss ↦
          let (b', q, w) = walk fuel b addr order x (read_next b x) xs refl not c (omega arith) in
          (
            b',
            rw (nz, miss) (ground arith),
            Walked-past b b' addr p x xs miss (e ∙ here) ne not out w,
          )
    ])

-- What `remove` leaves: the list of `order` without `addr`, and every other block as it was.
pub record Removed (b : Buddy) (addr order : ℕ) (xs : List ℕ) (b' : Buddy) : Type 0 where
  pub chain : Chain b'.memory (b'.heads order) (erase addr xs)
  pub heads : (o : ℕ) → (o == order) ≡ false → b'.heads o ≡ b.heads o
  pub same : (a : ℕ) → has a xs ≡ false → b'.memory a ≡ b.memory a

-- `remove` says whether the block is in the list, and unlinks it.
pub remove-Removed :
    (fuel : ℕ) (b : Buddy) (addr order : ℕ) (xs : List ℕ)
    → Chain b.memory (b.heads order) xs
    → length xs < fuel
    → (b' : Buddy) × (remove fuel b addr order ≡ some (has addr xs, b'))
      × Removed b addr order xs b'
unfolding remove update
remove-Removed zero b addr order xs c f = absurd (ground arith)
remove-Removed (suc fuel) b addr order [] c f =
    (b, rw c refl, record { chain = c; heads = λ o _. refl; same = λ a _. refl })
remove-Removed (suc fuel) b addr order (x ∷ xs) (here, ne, not, c) f =
    let nz : (x == 0) ≡ false = ground arith in
    rw here (elim (Bool-cases (x == addr)) [
      | inl hit ↦ (
        set_head b order (read_next b x),
        rw (nz, hit) (ground arith),
        record { chain = rw hit (ground arith); heads = λ o d. ground arith; same = λ a _. refl },
      )
      | inr miss ↦
          let (b', q, w) = walk fuel b addr order x (read_next b x) xs refl not c (omega arith) in
          (
            b',
            rw (nz, miss) (ground arith),
            record {
              chain = rw miss (rw w.heads (here, ne, has-erase x addr xs not, w.chain));
              heads = λ o d. rw w.heads;
              same = λ a o. w.same a (ground arith) (ground arith);
            },
          )
    ])
