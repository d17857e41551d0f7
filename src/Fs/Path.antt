-- ===== src/Fs/Path.antt =====
-- kernel/src/fs/lemonfs/path.rs and the names of kernel/src/fs/lemonfs/disk.rs. A string is the
-- list of its bytes. `String::from_utf8_lossy_owned` of the standard library is spelt out.
pub mod Laws
use maram_os.Base.{
  ℕ, zero, suc, ◌+◌, ◌-◌, ◌*◌, ◌/◌, ◌%◌, ◌^◌, ◌≤◌, ◌<◌, ◌≡◌, ◌≢◌, refl, Bool, true, false, ◌||◌,
  ◌&&◌, ◌⊎◌, min, Option, none, some, List, [], ◌∷◌, ◌++◌, arith, ltb, leb, ◌==◌, ==_iff, ◌∙◌, ap,
  sym, subst, ltb→lt, if◌then◌else◌, update, all_below, all_below_sound, Bool-cases, Option-cases,
  inl, inr, All, All-get_elem?, All-set, length-set, set, length, get_elem?, get_elem?-set_self,
  get_elem?-set_ne, get_elem?_below, sub64, u64_mod, checked_sub, take, replicate, append_assoc,
  append-nil, length-append, drop, not,
}

-- '/' and '.'.
abbrev pub slash : ℕ
slash = 47

abbrev pub dot : ℕ
dot = 46

unfoldable pub same_str : List ℕ → List ℕ → Bool
same_str [] [] = true
same_str [] (b ∷ bs) = false
same_str (a ∷ tail) [] = false
same_str (a ∷ tail) (b ∷ bs) = a == b && same_str tail bs

abbrev pub cons_head : ℕ → List (List ℕ) → List (List ℕ)
cons_head c [] = (c ∷ []) ∷ []
cons_head c (p ∷ ps) = (c ∷ p) ∷ ps

-- `split('/')`.
unfoldable pub split : List ℕ → List (List ℕ)
split [] = [] ∷ []
split (c ∷ rest) = let later = split rest in if c == slash then [] ∷ later else cons_head c later

-- The test of the filter of `components`.
abbrev pub is_component : List ℕ → Bool
is_component [] = false
is_component (c ∷ []) = if c == dot then false else true
is_component (c ∷ d ∷ rest) = true

unfoldable pub keep_components : List (List ℕ) → List (List ℕ)
keep_components [] = []
keep_components (p ∷ ps) =
    let later = keep_components ps in if is_component p then p ∷ later else later

unfoldable pub components : List ℕ → List (List ℕ)
unfolding split keep_components
components path = keep_components (split path)

unfoldable pub is_root : List ℕ → Bool
unfolding same_str
is_root path = same_str path (slash ∷ [])

-- The loop of `from_vec`, and `from_vec`.
unfoldable pub join_parts : List (List ℕ) → List ℕ
join_parts [] = []
join_parts (p ∷ ps) = p ++ slash ∷ join_parts ps

unfoldable pub from_vec : List (List ℕ) → List ℕ
unfolding join_parts
from_vec parts = slash ∷ join_parts parts

-- `pop`, for what stays, and `last`.
unfoldable pub init {ℓ} : {A : Type ℓ} → List A → List A
init [] = []
init (x ∷ []) = []
init (x ∷ y ∷ rest) = x ∷ init (y ∷ rest)

unfoldable pub last_or {ℓ} : {A : Type ℓ} → A → List A → A
last_or d [] = d
last_or d (x ∷ rest) = last_or x rest

unfoldable pub parent : List ℕ → List ℕ
unfolding components init from_vec
parent path = from_vec (init (components path))

unfoldable pub name : List ℕ → List ℕ
unfolding components last_or
name path = last_or (slash ∷ []) (components path)

-- `Filename`: its 36 bytes.
abbrev pub filename_len : ℕ
filename_len = 36

unfoldable pub from_str : List ℕ → List ℕ
from_str s = take filename_len s ++ replicate (filename_len - min (length s) filename_len) 0

-- A byte of a string, or 0 behind its end.
abbrev pub byte_at : ℕ → List ℕ → ℕ
byte_at i [] = 0
byte_at zero (c ∷ rest) = c
byte_at (suc i) (c ∷ rest) = byte_at i rest

abbrev pub between : ℕ → ℕ → ℕ → Bool
between lo hi c = leb lo c && leb c hi

-- The bytes that may follow the first byte of a character of three or four bytes.
abbrev pub is_second : ℕ → ℕ → Bool
is_second c b =
    if c == 224
    then between 160 191 b
    else if c == 237
    then between 128 159 b
    else if c == 240
    then between 144 191 b
    else if c == 244
    then between 128 143 b
    else between 128 191 b

-- Whether a character starts with the byte `c`, and how many of the bytes behind `c` belong to it,
-- or to the piece of one that is replaced.
unfoldable pub first_char : ℕ → List ℕ → Bool × ℕ
first_char c rest =
    if ltb c 128
    then (true, 0)
    else if between 194 223 c
    then (if between 128 191 (byte_at 0 rest) then (true, 1) else (false, 0))
    else if not (between 224 244 c) || not (is_second c (byte_at 0 rest))
    then (false, 0)
    else if not (between 128 191 (byte_at 1 rest))
    then (false, 1)
    else if ltb c 240
    then (true, 2)
    else if between 128 191 (byte_at 2 rest)
    then (true, 3)
    else (false, 2)

-- U+FFFD.
abbrev pub replacement : List ℕ
replacement = 239 ∷ 191 ∷ 189 ∷ []

-- Each piece that is no character is replaced. Every round takes at least one byte, so that as many
-- rounds as there are bytes are enough.
unfoldable pub lossy : ℕ → List ℕ → List ℕ
unfolding first_char
lossy zero bytes = []
lossy (suc rounds) [] = []
lossy (suc rounds) (c ∷ rest) =
    let n = (first_char c rest).1 in
    let later = lossy rounds (drop n rest) in
    if (first_char c rest).0 then c ∷ take n rest ++ later else replacement ++ later

unfoldable pub from_utf8_lossy : List ℕ → List ℕ
unfolding lossy
from_utf8_lossy bytes = lossy (length bytes) bytes

-- The filter of `to_str`.
unfoldable pub nonzeros : List ℕ → List ℕ
nonzeros [] = []
nonzeros (c ∷ rest) = let later = nonzeros rest in if c == 0 then later else c ∷ later

unfoldable pub to_str : List ℕ → List ℕ
unfolding nonzeros from_utf8_lossy
to_str bytes = from_utf8_lossy (nonzeros bytes)

unfoldable pub is_empty : List ℕ → Bool
is_empty [] = true
is_empty (c ∷ rest) = c == 0 && is_empty rest
