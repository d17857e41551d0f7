-- ===== src/Fs/Bitmap/Change.antt =====
-- Which bits of the whole bitmap an operation of kernel/src/fs/lemonfs/bitmap.rs changes.
use maram_os.Base.{
  ℕ, zero, suc, ◌+◌, ◌*◌, ◌/◌, ◌%◌, ◌≤◌, ◌<◌, ◌≡◌, ◌≢◌, refl, Bool, true, false, ◌||◌, ◌&&◌, Option,
  none, some, List, arith, ltb, leb, ◌==◌, ◌∙◌, if◌then◌else◌, Bool-cases, inl, inr, All,
  All-get_elem?, All-set, length-set, set, length, get_elem?, get_elem?-set_self, get_elem?-set_ne,
  get_elem?_below,
}
use maram_os.Fs.Bitmap.{BlockState, set_state, clear_state, set_bit, clear_bit, each_bit}
use maram_os.Fs.Bitmap.Bits.{bit_of, IsGood, bit_of-set_state, bit_of-clear_state}

-- Whether bit `n` of the bitmap is set, that is whether block `data_start + n` is in use.
unfoldable pub is_set : List BlockState → ℕ → Bool
is_set blocks n = elim (get_elem? blocks (n / 4096)) [ none ↦ false | some s ↦ bit_of s (n % 4096) ]

abbrev pub within : ℕ → ℕ → ℕ → Bool
within from count n = leb from n && ltb n (from + count)

-- `after` is `before` with the `count` bits from `from` on made `value`.
abbrev pub Changed : Bool → ℕ → ℕ → List BlockState → List BlockState → Type 0
Changed value from count before after =
    All IsGood after
    × (length after ≡ length before)
    × ((n : ℕ) → is_set after n ≡ (if within from count n then value else is_set before n))

-- What `set_bit` and `clear_bit` have in common.
abbrev Writes : Bool → (List BlockState → ℕ → Option (List BlockState)) → Type 0
Writes value step =
    (blocks : List BlockState) (i : ℕ)
    → All IsGood blocks
    → i < length blocks * 4096
    → (after : List BlockState) × (step blocks i ≡ some after) × Changed value i 1 blocks after

set_block :
    (value : Bool) (blocks : List BlockState) (i : ℕ) (s s' : BlockState)
    → All IsGood blocks
    → get_elem? blocks (i / 4096) ≡ some s
    → IsGood s'
    → ((j : ℕ) → j < 4096 → bit_of s' j ≡ (if j == i % 4096 then value else bit_of s j))
    → Changed value i 1 blocks (set blocks (i / 4096) s')
unfolding is_set
set_block value blocks i s s' good found good' bits =
    (All-set _ blocks (i / 4096) s' good good', length-set blocks (i / 4096) s', at)
  where
    at :
        (n : ℕ)
        → is_set (set blocks (i / 4096) s') n ≡ (if within i 1 n then value else is_set blocks n)
    at n = elim (Bool-cases (n / 4096 == i / 4096)) [
      | inl e ↦
          let q : n / 4096 ≡ i / 4096 = ground arith in
          let digit : (n % 4096 == i % 4096) ≡ within i 1 n = ground arith in
          let inside = bits (n % 4096) (omega arith) in
          rw (is_set, q, get_elem?-set_self blocks (i / 4096) s' s found, found, ← digit) inside
      | inr e ↦
          let out : within i 1 n ≡ false = ground arith in
          let ne : i / 4096 ≢ n / 4096 = ground arith in
          rw (is_set, get_elem?-set_ne blocks (i / 4096) (n / 4096) s' ne, out) refl
    ]

or_if : (t b : Bool) → (t || b) ≡ (if t then true else b)
or_if t b = ground arith

set_bit_at :
    (blocks : List BlockState) (i : ℕ) (s : BlockState)
    → get_elem? blocks (i / 4096) ≡ some s
    → set_bit blocks i ≡ some (set blocks (i / 4096) (set_state s (i % 4096)))
unfolding set_bit
set_bit_at blocks i s h = rw (h, set_bit) refl

pub set_bit-Writes : Writes true set_bit
set_bit-Writes blocks i good h =
    let (s, found) = get_elem?_below blocks (i / 4096) (omega arith) in
    let fine = All-get_elem? _ blocks (i / 4096) s good found in
    let inside : i % 4096 < 4096 = omega arith in
    (
      set blocks (i / 4096) (set_state s (i % 4096)),
      set_bit_at blocks i s found,
      set_block true blocks i s (set_state s (i % 4096)) good found
          (bit_of-set_state s (i % 4096) 0 fine inside (omega arith)).1
          (λ j hj.
            (bit_of-set_state s (i % 4096) j fine inside hj).0
            ∙ or_if (j == i % 4096) (bit_of s j)),
    )

clear_bit_at :
    (blocks : List BlockState) (i : ℕ) (s : BlockState)
    → get_elem? blocks (i / 4096) ≡ some s
    → clear_bit blocks i ≡ some (set blocks (i / 4096) (clear_state s (i % 4096)))
unfolding clear_bit
clear_bit_at blocks i s h = rw (h, clear_bit) refl

pub clear_bit-Writes : Writes false clear_bit
clear_bit-Writes blocks i good h =
    let (s, found) = get_elem?_below blocks (i / 4096) (omega arith) in
    let fine = All-get_elem? _ blocks (i / 4096) s good found in
    let inside : i % 4096 < 4096 = omega arith in
    (
      set blocks (i / 4096) (clear_state s (i % 4096)),
      clear_bit_at blocks i s found,
      set_block false blocks i s (clear_state s (i % 4096)) good found
          (bit_of-clear_state s (i % 4096) 0 fine inside (omega arith)).1
          (λ j hj. (bit_of-clear_state s (i % 4096) j fine inside hj).0),
    )

-- A run of such steps changes the whole run.
pub each_bit-Changed :
    (value : Bool) (step : List BlockState → ℕ → Option (List BlockState)) (rounds from : ℕ)
    (blocks : List BlockState)
    → Writes value step
    → All IsGood blocks
    → from + rounds ≤ length blocks * 4096
    → (after : List BlockState) × (each_bit step rounds from blocks ≡ some after)
      × Changed value from rounds blocks after
unfolding each_bit
each_bit-Changed value step zero from blocks w good h = (blocks, refl, (good, refl, same))
  where
    same : (n : ℕ) → is_set blocks n ≡ (if within from 0 n then value else is_set blocks n)
    same n = let out : within from 0 n ≡ false = ground arith in rw out refl
each_bit-Changed value step (suc rounds) from blocks w good h =
    let (mid, stepped, (good', len, bits)) = w blocks from good (omega arith) in
    let (after, ran, (good'', len', bits')) =
      each_bit-Changed value step rounds (from + 1) mid w good' (ground arith) in
    (after, rw (stepped, each_bit) ran, (good'', len' ∙ len, joined mid after bits bits'))
  where
    joined :
        (mid after : List BlockState)
        → ((n : ℕ) → is_set mid n ≡ (if within from 1 n then value else is_set blocks n))
        → ((n : ℕ) → is_set after n ≡ (if within (from + 1) rounds n then value else is_set mid n))
        → (n : ℕ) → is_set after n ≡ (if within from (suc rounds) n then value else is_set blocks n)
    joined mid after bits bits' n = ground (arith, bits n, bits' n)
