-- ===== src/Fs/Bitmap/Bits.antt =====
-- The bits that the blocks of kernel/src/fs/lemonfs/bitmap.rs stand for.
use Prim.Native.Nat.{bit_and, bit_or}
use maram_os.Base.{
  ℕ, ◌-◌, ◌/◌, ◌%◌, ◌^◌, ◌<◌, ◌≡◌, refl, Bool, true, false, ◌||◌, ◌&&◌, arith, ltb, ◌==◌, ==_iff,
  ◌∙◌, ap, sym, ltb→lt, if◌then◌else◌, update, all_below, all_below_sound, Bool-cases, inl, inr,
}
use maram_os.Fs.Bitmap.{
  BitmapBlock, BlockState, free, full, mixed, get, set_in, clear_in, collapse, set_state,
  clear_state, materialize,
}

-- Bit `i` of a block, whatever its representation.
abbrev pub bit_of : BlockState → ℕ → Bool
bit_of free i = false
bit_of full i = true
bit_of (mixed b) i = get b i

-- Bit `k` of a byte.
abbrev bit : ℕ → ℕ → Bool
bit v k = (v / 2 ^ k) % 2 == 1

abbrev same : Bool → Bool → Bool
same true b = b
same false b = if b then false else true

same_sound : (a b : Bool) → same a b ≡ true → a ≡ b
same_sound a b h = ground arith

-- The checks of the two tables, for one byte and one bit.
or_row : ℕ → ℕ → Bool
or_row v k =
    all_below 8 (λ j. same (bit (bit_or v (2 ^ k)) j) ((j == k) || bit v j))
    && ltb (bit_or v (2 ^ k)) 256

and_row : ℕ → ℕ → Bool
and_row v k =
    all_below 8 (λ j. same (bit (bit_and v (255 - 2 ^ k)) j) (if j == k then false else bit v j))
    && ltb (bit_and v (255 - 2 ^ k)) 256

or_table : all_below 256 (λ v. all_below 8 (or_row v)) ≡ true
unfolding all_below or_row
or_table = refl

and_table : all_below 256 (λ v. all_below 8 (and_row v)) ≡ true
unfolding all_below and_row
and_table = refl

and_left : (a b : Bool) → (a && b) ≡ true → (a ≡ true) × (b ≡ true)
and_left a b h = ground arith

bit_or_lem :
    (v k j : ℕ)
    → v < 256
    → k < 8
    → j < 8
    → (bit (bit_or v (2 ^ k)) j ≡ ((j == k) || bit v j)) × (bit_or v (2 ^ k) < 256)
unfolding or_row
bit_or_lem v k j hv hk hj =
    let row = all_below_sound 8 _ k (all_below_sound 256 _ v or_table hv) hk in
    let (bits, small) = and_left _ _ row in
    (same_sound _ _ (all_below_sound 8 _ j bits hj), ltb→lt _ _ small)

bit_and_lem :
    (v k j : ℕ)
    → v < 256
    → k < 8
    → j < 8
    → (bit (bit_and v (255 - 2 ^ k)) j ≡ (if j == k then false else bit v j))
      × (bit_and v (255 - 2 ^ k) < 256)
unfolding and_row
bit_and_lem v k j hv hk hj =
    let row = all_below_sound 8 _ k (all_below_sound 256 _ v and_table hv) hk in
    let (bits, small) = and_left _ _ row in
    (same_sound _ _ (all_below_sound 8 _ j bits hj), ltb→lt _ _ small)

-- Every entry is a byte.
abbrev pub IsBytes : BitmapBlock → Type 0
IsBytes b = (i : ℕ) → b i < 256

pub get-set_in :
    (b : BitmapBlock) (i j : ℕ) → IsBytes b → get (set_in b i) j ≡ ((j == i) || get b j)
unfolding get set_in update
get-set_in b i j h =
    let (law, _) = bit_or_lem (b (i / 8)) (i % 8) (j % 8) (h (i / 8)) (omega arith) (omega arith) in
    elim (Bool-cases (j / 8 == i / 8)) [
      | inl e ↦
          let q : j / 8 ≡ i / 8 = ground arith in
          let digit : (j % 8 == i % 8) ≡ (j == i) = ground arith in rw e (law ∙ rw (digit, q) refl)
      | inr e ↦ let ne : (j == i) ≡ false = ground arith in rw (e, ne) refl
    ]

pub get-clear_in :
    (b : BitmapBlock) (i j : ℕ)
    → IsBytes b
    → get (clear_in b i) j ≡ (if j == i then false else get b j)
unfolding get clear_in update
get-clear_in b i j h =
    let (law, _) =
      bit_and_lem (b (i / 8)) (i % 8) (j % 8) (h (i / 8)) (omega arith) (omega arith) in
    elim (Bool-cases (j / 8 == i / 8)) [
      | inl e ↦
          let q : j / 8 ≡ i / 8 = ground arith in
          let digit : (j % 8 == i % 8) ≡ (j == i) = ground arith in rw e (law ∙ rw (digit, q) refl)
      | inr e ↦ let ne : (j == i) ≡ false = ground arith in rw (e, ne) refl
    ]

set_in-IsBytes : (b : BitmapBlock) (i : ℕ) → IsBytes b → IsBytes (set_in b i)
unfolding set_in update
set_in-IsBytes b i h j =
    let (_, small) = bit_or_lem (b (i / 8)) (i % 8) 0 (h (i / 8)) (omega arith) (omega arith) in
    ground (arith, h j)

clear_in-IsBytes : (b : BitmapBlock) (i : ℕ) → IsBytes b → IsBytes (clear_in b i)
unfolding clear_in update
clear_in-IsBytes b i h j =
    let (_, small) = bit_and_lem (b (i / 8)) (i % 8) 0 (h (i / 8)) (omega arith) (omega arith) in
    ground (arith, h j)

-- A block whose bytes are bytes.
abbrev pub IsGood : BlockState → Type 0
IsGood free = Unit
IsGood full = Unit
IsGood (mixed b) = IsBytes b

zero_table : all_below 8 (λ k. same (bit 0 k) false) ≡ true
unfolding all_below
zero_table = refl

ones_table : all_below 8 (λ k. bit 255 k) ≡ true
unfolding all_below
ones_table = refl

pub get-zero : (b : BitmapBlock) (j : ℕ) → b (j / 8) ≡ 0 → get b j ≡ false
unfolding get
get-zero b j h = rw h (same_sound _ _ (all_below_sound 8 _ (j % 8) zero_table (omega arith)))

pub get-ones : (b : BitmapBlock) (j : ℕ) → b (j / 8) ≡ 255 → get b j ≡ true
unfolding get
get-ones b j h = rw h (all_below_sound 8 _ (j % 8) ones_table (omega arith))

-- `collapse` changes how a block is kept, and no bit of it.
pub bit_of-collapse : (s : BlockState) (j : ℕ) → j < 4096 → bit_of (collapse s) j ≡ bit_of s j
unfolding collapse
bit_of-collapse free j h = refl
bit_of-collapse full j h = refl
bit_of-collapse (mixed b) j h = elim (Bool-cases (all_below 512 (λ i. b i == 0))) [
  | inl z ↦
      rw z (sym (get-zero b j ((==_iff _ _).0 (all_below_sound 512 _ (j / 8) z (omega arith)))))
  | inr z ↦ elim (Bool-cases (all_below 512 (λ i. b i == 255))) [
    | inl o ↦
        rw (z, o)
          (sym (get-ones b j ((==_iff _ _).0 (all_below_sound 512 _ (j / 8) o (omega arith)))))
    | inr o ↦ rw (z, o) refl
  ]
]

pub collapse-IsGood : (s : BlockState) → IsGood s → IsGood (collapse s)
unfolding collapse
collapse-IsGood free h = h
collapse-IsGood full h = h
collapse-IsGood (mixed b) h = elim (Bool-cases (all_below 512 (λ i. b i == 0))) [
  | inl z ↦ rw z tt
  | inr z ↦ elim (Bool-cases (all_below 512 (λ i. b i == 255))) [
    | inl o ↦ rw (z, o) tt
    | inr o ↦ rw (z, o) h
  ]
]

-- `set_bit` and `clear_bit` within one block.
pub bit_of-set_state :
    (s : BlockState) (i j : ℕ)
    → IsGood s
    → i < 4096
    → j < 4096
    → (bit_of (set_state s i) j ≡ ((j == i) || bit_of s j)) × IsGood (set_state s i)
unfolding set_state
bit_of-set_state free i j h hi hj =
    let bytes : IsBytes (materialize 0) = (λ k. omega arith) in
    (
      bit_of-collapse (mixed (set_in (materialize 0) i)) j hj
          ∙ get-set_in (materialize 0) i j bytes
          ∙ ap (λ t. (j == i) || t) (get-zero (materialize 0) j refl),
      collapse-IsGood (mixed (set_in (materialize 0) i)) (set_in-IsBytes (materialize 0) i bytes),
    )
bit_of-set_state full i j h hi hj = (ground arith, tt)
bit_of-set_state (mixed b) i j h hi hj = (
  bit_of-collapse (mixed (set_in b i)) j hj ∙ get-set_in b i j h,
  collapse-IsGood (mixed (set_in b i)) (set_in-IsBytes b i h),
)

pub bit_of-clear_state :
    (s : BlockState) (i j : ℕ)
    → IsGood s
    → i < 4096
    → j < 4096
    → (bit_of (clear_state s i) j ≡ (if j == i then false else bit_of s j))
      × IsGood (clear_state s i)
unfolding clear_state
bit_of-clear_state free i j h hi hj = (ground arith, tt)
bit_of-clear_state full i j h hi hj =
    let bytes : IsBytes (materialize 255) = (λ k. omega arith) in
    (
      bit_of-collapse (mixed (clear_in (materialize 255) i)) j hj
          ∙ get-clear_in (materialize 255) i j bytes
          ∙ ap (λ t. if j == i then false else t) (get-ones (materialize 255) j refl),
      collapse-IsGood (mixed (clear_in (materialize 255) i))
          (clear_in-IsBytes (materialize 255) i bytes),
    )
bit_of-clear_state (mixed b) i j h hi hj = (
  bit_of-collapse (mixed (clear_in b i)) j hj ∙ get-clear_in b i j h,
  collapse-IsGood (mixed (clear_in b i)) (clear_in-IsBytes b i h),
)
