-- ===== src/Fs/Store/Keeps.antt =====
-- Code over the state of LemonFS that leaves a part of it, its view, as it was, whatever the
-- outcome is: how such code is put together.
use maram_os.Base.{
  ℕ, ◌+◌, ◌≡◌, refl, Bool, true, false, Option, none, some, List, ◌∙◌, ap, subst, ltb, leb, ◌==◌,
  if◌then◌else◌, Bool-cases, Option-cases, inl, inr,
}
use maram_os.Fs.Bitmap.{alloc, free_blocks}
use maram_os.Fs.Store.{
  LemonFs, DirectoryEntry, FsError, Outcome, ok, err, panic, out_of_fuel, Sector, M, pure, halt,
  fail, continue, ◌>>=◌, of_option, diverge, alloc_block, free_run, read_sector, write_data,
  zero_run,
}

unfoldable pub Keeps : {A B : Type 0} (view : LemonFs → B) → M A → Type 0
Keeps view m = (s : LemonFs) → view (m s).1 ≡ view s

module _ {B : Type 0} (view : LemonFs → B) where
  continue-Keeps :
      {A C : Type 0} (o : Outcome A) (t : LemonFs) (f : A → M C)
      → ((a : A) → Keeps view (f a))
      → view (continue (o, t) f).1 ≡ view t
  unfolding Keeps
  continue-Keeps (ok a) t f h = h a t
  continue-Keeps (err e) t f h = refl
  continue-Keeps panic t f h = refl
  continue-Keeps out_of_fuel t f h = refl

  pub Keeps-bind :
      {A C : Type 0} (m : M A) (f : A → M C)
      → Keeps view m
      → ((a : A) → Keeps view (f a))
      → Keeps view (m >>= f)
  unfolding Keeps
  Keeps-bind m f hm hf = λ s. continue-Keeps (m s).0 (m s).1 f hf ∙ hm s

  pub Keeps-then :
      {C : Type 0} (m : M (Unit {0})) (k : M C)
      → Keeps view m
      → Keeps view k
      → Keeps view (m >>= λ u. k)
  Keeps-then m k hm hk = Keeps-bind m (λ u. k) hm (λ u. hk)

  pub Keeps-pure : {A : Type 0} (a : A) → Keeps view (pure a)
  unfolding Keeps
  Keeps-pure a = λ s. refl

  pub Keeps-fail : (A : Type 0) (e : FsError) → Keeps view (fail {A = A} e)
  unfolding Keeps
  Keeps-fail A e = λ s. refl

  pub Keeps-halt : (A : Type 0) → Keeps view (halt {A = A})
  unfolding Keeps
  Keeps-halt A = λ s. refl

  pub Keeps-diverge : (A : Type 0) → Keeps view (diverge {A = A})
  unfolding Keeps
  Keeps-diverge A = λ s. refl

  pub Keeps-of_option : {A : Type 0} (o : Option A) (e : FsError) → Keeps view (of_option o e)
  unfolding Keeps
  Keeps-of_option none e = λ s. refl
  Keeps-of_option (some a) e = λ s. refl

  pub Keeps-if :
      {A : Type 0} (b : Bool) (m n : M A)
      → Keeps view m
      → Keeps view n
      → Keeps view (if b then m else n)
  Keeps-if true m n hm hn = hm
  Keeps-if false m n hm hn = hn

  pub Keeps-read_sector : (sectors lba : ℕ) → Keeps view (read_sector sectors lba)
  unfolding Keeps read_sector
  Keeps-read_sector sectors lba =
      λ s. elim (Bool-cases (ltb lba sectors)) [ inl e ↦ rw e refl | inr e ↦ rw e refl ]

-- What came before a result.
continue_ok :
    {A C : Type 0} (o : Outcome A) (u : LemonFs) (f : A → M C) (y : C) (t : LemonFs)
    → continue (o, u) f ≡ (ok y, t)
    → (a : A) × (o ≡ ok a) × (f a u ≡ (ok y, t))
continue_ok (ok a) u f y t h = (a, refl, h)
continue_ok (err e) u f y t h = absurd (cc (ap (λ p. p.0) h))
continue_ok panic u f y t h = absurd (cc (ap (λ p. p.0) h))
continue_ok out_of_fuel u f y t h = absurd (cc (ap (λ p. p.0) h))

pub bind_ok :
    {A C : Type 0} (m : M A) (f : A → M C) (s : LemonFs) (y : C) (t : LemonFs)
    → (m >>= f) s ≡ (ok y, t)
    → (a : A) × ((m s).0 ≡ ok a) × (f a (m s).1 ≡ (ok y, t))
bind_ok m f s y t h = continue_ok (m s).0 (m s).1 f y t h

-- A predicate at every result.
unfoldable pub Gives : {A : Type 0} (P : A → Type 0) → M A → Type 0
Gives {A} P m = (s : LemonFs) (a : A) (t : LemonFs) → m s ≡ (ok a, t) → P a

pub Gives-bind :
    {A C : Type 0} (P : C → Type 0) (m : M A) (f : A → M C)
    → ((a : A) → Gives P (f a))
    → Gives P (m >>= f)
unfolding Gives
Gives-bind P m f h = λ s y t e. let before = bind_ok m f s y t e in h before.0 (m s).1 y t before.2

pub Gives-pure : {A : Type 0} (P : A → Type 0) (a : A) → P a → Gives P (pure a)
unfolding Gives
Gives-pure P a h = λ s b t e. let k : a ≡ b = cc (ap (λ p. p.0) e) in subst P k h

-- What changes the disk and the bitmap leaves the cached root as it was.
abbrev pub the_root : LemonFs → List DirectoryEntry
the_root s = s.root

pub Keeps-alloc_block : Keeps the_root alloc_block
unfolding Keeps alloc_block
Keeps-alloc_block = λ s. elim (Option-cases (alloc s.bitmap 1)) [
  | inl e ↦ rw (the_root, e) refl
  | inr (x, e) ↦ rw (the_root, e) refl
]

pub Keeps-free_run : (start count : ℕ) → Keeps the_root (free_run start count)
unfolding Keeps free_run
Keeps-free_run start count = λ s. elim (Option-cases (free_blocks s.bitmap start count)) [
  | inl e ↦ rw (the_root, e) refl
  | inr (x, e) ↦ rw (the_root, e) refl
]

pub Keeps-write_data : (sectors lba : ℕ) (x : Sector) → Keeps the_root (write_data sectors lba x)
unfolding Keeps write_data
Keeps-write_data sectors lba x = λ s. elim (Bool-cases (ltb lba sectors)) [
  | inl e ↦ rw (the_root, e) refl
  | inr e ↦ rw (the_root, e) refl
]

pub Keeps-zero_run : (sectors start count : ℕ) → Keeps the_root (zero_run sectors start count)
unfolding Keeps zero_run
Keeps-zero_run sectors start count = λ s. elim (Bool-cases (count == 0)) [
  | inl e ↦ rw (the_root, e) refl
  | inr e ↦ elim (Bool-cases (leb (start + count) sectors)) [
    | inl f ↦ rw (the_root, e, f) refl
    | inr f ↦ rw (the_root, e, f) refl
  ]
]
