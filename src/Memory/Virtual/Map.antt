-- ===== src/Memory/Virtual/Map.antt =====
-- The pages that `map` of kernel/src/memory/virt.rs makes cover their region.
use maram_os.Base.{
  ℕ, zero, suc, Option, some, ◌≤◌, ◌-◌, ◌+◌, ◌*◌, ◌/◌, ◌%◌, ◌<◌, ◌≡◌, refl, true, false, ◌&&◌, List,
  [], ◌∷◌, ◌++◌, ◌∙◌, ap, sym, subst, leb, ◌==◌, Bool-cases, inl, inr, arith, div_ceil,
}
use native.Mathlib.Nat.{div-add-mod}
use maram_os.Memory.Virtual.{
  VirtualRegion, MapCall, Left, Calls, less, and_then, size_l1, size_l2, size_l3, advance, count_of,
  calls_of, stage, map_calls,
}

abbrev pub IsMultiple : ℕ → ℕ → Type 0
IsMultiple size x = (k : ℕ) × (x ≡ k * size)

-- The calls map one page after the other, each at multiples of its size, from one virtual and one
-- physical address to others.
abbrev pub Lays : List MapCall → ℕ → ℕ → ℕ → ℕ → Type 0
Lays [] virt phys virt_end phys_end = (virt ≡ virt_end) × (phys ≡ phys_end)
Lays (c ∷ rest) virt phys virt_end phys_end =
    (c.virt ≡ virt)
    × (c.phys ≡ phys)
    × IsMultiple c.page_size virt
    × IsMultiple c.page_size phys
    × Lays rest (virt + c.page_size) (phys + c.page_size) virt_end phys_end

Lays-append :
    (xs ys : List MapCall) (virt phys v p virt_end phys_end : ℕ)
    → Lays xs virt phys v p
    → Lays ys v p virt_end phys_end
    → Lays (xs ++ ys) virt phys virt_end phys_end
Lays-append [] ys virt phys v p virt_end phys_end (ev, ep) hs =
    subst (λ x. Lays ys x phys virt_end phys_end) (sym ev)
      (subst (λ x. Lays ys v x virt_end phys_end) (sym ep) hs)
Lays-append (c ∷ rest) ys virt phys v p virt_end phys_end (a, b, d, e, h) hs = (
  a,
  b,
  d,
  e,
  Lays-append rest ys (virt + c.page_size) (phys + c.page_size) v p virt_end phys_end h hs,
)

IsMultiple-next : (size x : ℕ) → IsMultiple size x → IsMultiple size (x + size)
IsMultiple-next size x (k, e) = (suc k, grind (arith, e))

-- The calls lead from what is left to what is left in the end, without a panic.
abbrev Reaches : Calls → Left → Left → Type 0
Reaches out l l' = (out.1 ≡ some l') × Lays out.0 l.virt l.phys l'.virt l'.phys

Left-ext : (l l' : Left) → l.rem ≡ l'.rem → l.virt ≡ l'.virt → l.phys ≡ l'.phys → l ≡ l'
Left-ext l l' r v p = λ i. record { rem = r i; virt = v i; phys = p i }

less-Reaches :
    (bytes : ℕ) (out : Calls) (l m : Left)
    → Reaches out l m
    → Reaches (less bytes out) l (record m { rem = m.rem - bytes })
less-Reaches bytes (calls, o) l m (e, h) = rw e (refl, h)

and_then-Reaches :
    (out : Calls) (next : Left → Calls) (l m n : Left)
    → Reaches out l m
    → Reaches (next m) m n
    → Reaches (and_then out next) l n
and_then-Reaches (calls, o) next l m n (e, h) (e', h') =
    rw e (e', Lays-append calls (next m).0 l.virt l.phys m.virt m.phys n.virt n.phys h h')

-- How many pages of a size fit into what is left, where these are used.
count_of-le : (size : ℕ) (l : Left) → 0 < size → count_of size l * size ≤ l.rem
unfolding count_of
count_of-le size l pos =
    elim (Bool-cases (leb size l.rem && (l.phys % size == 0 && l.virt % size == 0))) [
      | inl e ↦ rw e (grind (arith, div-add-mod l.rem size))
      | inr e ↦ rw e (omega arith)
    ]

ceil_add : (a r : ℕ) → div_ceil (a * 4096 + r) 4096 ≡ a + div_ceil r 4096
ceil_add a r = elim (Bool-cases (r % 4096 == 0)) [
  | inl e ↦ let f : ((a * 4096 + r) % 4096 == 0) ≡ true = ground arith in rw (e, f) (omega arith)
  | inr e ↦ let f : ((a * 4096 + r) % 4096 == 0) ≡ false = ground arith in rw (e, f) (omega arith)
]

-- Sums of addresses that stay between two bounds do not panic.
abbrev pub Adds : (ℕ → ℕ → Option ℕ) → ℕ → ℕ → Type 0
Adds add low high = (a n : ℕ) → low ≤ a → a + n ≤ high → add a n ≡ some (a + n)

module _ (add_virt add_phys : ℕ → ℕ → Option ℕ) {low_virt high_virt low_phys high_phys : ℕ}
    (virt_fits : Adds add_virt low_virt high_virt)
    (phys_fits : Adds add_phys low_phys high_phys) where
  abbrev IsInside : Left → ℕ → Type 0
  IsInside l bytes =
      (low_virt ≤ l.virt)
      × (l.virt + bytes ≤ high_virt)
      × (low_phys ≤ l.phys)
      × (l.phys + bytes ≤ high_phys)

  abbrev moved : ℕ → Left → Left
  moved bytes l = record { rem = l.rem; virt = l.virt + bytes; phys = l.phys + bytes }

  advance-moved :
      (size : ℕ) (l : Left)
      → IsInside l size
      → advance add_virt add_phys size l ≡ some (moved size l)
  unfolding advance
  advance-moved size l (lv, hv, lp, hp) =
      rw (virt_fits l.virt size lv hv, advance) (rw (phys_fits l.phys size lp hp) refl)

  no_pages :
      (size : ℕ) (l : Left) → Reaches (calls_of add_virt add_phys 0 size l) l (moved (0 * size) l)
  unfolding calls_of
  no_pages size l = (
    ap some (Left-ext l (moved (0 * size) l) refl (omega arith) (omega arith)),
    (omega arith, omega arith),
  )

  calls_of-Reaches :
      (rounds size : ℕ) (l : Left)
      → IsMultiple size l.virt
      → IsMultiple size l.phys
      → IsInside l (rounds * size)
      → Reaches (calls_of add_virt add_phys rounds size l) l (moved (rounds * size) l)
  unfolding calls_of
  calls_of-Reaches zero size l mv mp inside = no_pages size l
  calls_of-Reaches (suc rounds) size l mv mp (lv, hv, lp, hp) =
      let more : suc rounds * size ≡ size + rounds * size = grind arith in
      let step = advance-moved size l (lv, omega (arith, more), lp, omega (arith, more)) in
      let ih =
        calls_of-Reaches rounds size (moved size l) (IsMultiple-next size l.virt mv)
          (IsMultiple-next size l.phys mp)
          (omega arith, omega (arith, more), omega arith, omega (arith, more)) in
      let same : moved (rounds * size) (moved size l) ≡ moved (suc rounds * size) l =
        Left-ext (moved (rounds * size) (moved size l)) (moved (suc rounds * size) l) refl
          (omega (arith, more)) (omega (arith, more)) in
      let rest : Lays (calls_of add_virt add_phys rounds size (moved size l)).0 (l.virt + size)
          (l.phys + size) (l.virt + suc rounds * size) (l.phys + suc rounds * size) =
        subst
          (λ (n : Left).
            Lays (calls_of add_virt add_phys rounds size (moved size l)).0 (l.virt + size)
              (l.phys + size) n.virt n.phys)
          same ih.1 in
      rw (step, calls_of) (ih.0 ∙ ap some same, (refl, refl, mv, mp, rest))

  abbrev after : ℕ → Left → Left
  after bytes l = record { rem = l.rem - bytes; virt = l.virt + bytes; phys = l.phys + bytes }

  pages-Reaches :
      (size : ℕ) (l : Left)
      → 0 < size
      → IsInside l (count_of size l * size)
      → Reaches
          (calls_of add_virt add_phys (count_of size l) size l)
          l
          (moved (count_of size l * size) l)
  unfolding count_of
  pages-Reaches size l pos inside =
      elim (Bool-cases (leb size l.rem && (l.phys % size == 0 && l.virt % size == 0))) [
        | inl e ↦ rw e (
            calls_of-Reaches (l.rem / size) size l
              (l.virt / size, grind (arith, div-add-mod l.virt size, e))
              (l.phys / size, grind (arith, div-add-mod l.phys size, e)) (rw e at inside))
        | inr e ↦ rw e (no_pages size l)
      ]

  -- One stage of `map`.
  stage-Reaches :
      (size : ℕ) (l : Left)
      → 0 < size
      → IsInside l (count_of size l * size)
      → Reaches (stage add_virt add_phys size l) l (after (count_of size l * size) l)
  unfolding stage
  stage-Reaches size l pos inside =
      less-Reaches (count_of size l * size) (calls_of add_virt add_phys (count_of size l) size l) l
        (moved (count_of size l * size) l) (pages-Reaches size l pos inside)

-- With sums of addresses that do not panic up to the end of the last small page that the region
-- reaches into, `map` of a region that starts at a page, onto memory that starts at a page, does
-- not panic, and, when none of its calls fails, maps pages one after the other, each at multiples
-- of its size, from the starts on to that end.
pub map_calls-Lays :
    (add_virt add_phys : ℕ → ℕ → Option ℕ) (region : VirtualRegion) (phys : ℕ)
    → IsMultiple 4096 region.start
    → IsMultiple 4096 phys
    → Adds add_virt region.start (region.start + div_ceil region.size 4096 * 4096)
    → Adds add_phys phys (phys + div_ceil region.size 4096 * 4096)
    → ((left : Left) × ((map_calls add_virt add_phys region phys).1 ≡ some left))
      × Lays
          (map_calls add_virt add_phys region phys).0
          region.start
          phys
          (region.start + div_ceil region.size 4096 * 4096)
          (phys + div_ceil region.size 4096 * 4096)
unfolding map_calls
map_calls-Lays add_virt add_phys region phys (i, ei) (j, ej) virt_fits phys_fits =
    let all : Left = record { rem = region.size; virt = region.start; phys = phys } in
    let big = count_of size_l3 all in
    let two : Left = after add_virt add_phys virt_fits phys_fits (big * size_l3) all in
    let middle = count_of size_l2 two in
    let three : Left = after add_virt add_phys virt_fits phys_fits (middle * size_l2) two in
    let small = div_ceil three.rem size_l1 in
    let end : Left = moved add_virt add_phys virt_fits phys_fits (small * size_l1) three in
    let le_big : big * 1073741824 ≤ region.size = count_of-le size_l3 all (omega arith) in
    let le_middle : middle * 2097152 ≤ two.rem = count_of-le size_l2 two (omega arith) in
    let whole : region.size ≡ (middle * 512 + big * 262144) * 4096 + three.rem = omega arith in
    let total : div_ceil region.size 4096 ≡ middle * 512 + big * 262144 + small =
      ap (λ n. div_ceil n 4096) whole ∙ ceil_add (middle * 512 + big * 262144) three.rem in
    let first =
      stage-Reaches add_virt add_phys virt_fits phys_fits size_l3 all (omega arith)
        (omega arith, omega arith, omega arith, omega arith) in
    let second =
      stage-Reaches add_virt add_phys virt_fits phys_fits size_l2 two (omega arith)
        (omega arith, omega arith, omega arith, omega arith) in
    let third =
      calls_of-Reaches add_virt add_phys virt_fits phys_fits small size_l1 three
        (i + middle * 512 + big * 262144, omega arith)
        (j + middle * 512 + big * 262144, omega arith)
        (omega arith, omega arith, omega arith, omega arith) in
    let tail = λ (t : Left). calls_of add_virt add_phys (div_ceil t.rem size_l1) size_l1 t in
    let laid =
      and_then-Reaches (stage add_virt add_phys size_l3 all)
        (λ t. and_then (stage add_virt add_phys size_l2 t) tail) all two end first
        (and_then-Reaches (stage add_virt add_phys size_l2 two) tail two three end second third) in
    let virt_end : end.virt ≡ region.start + div_ceil region.size 4096 * 4096 = omega arith in
    let phys_end : end.phys ≡ phys + div_ceil region.size 4096 * 4096 = omega arith in
    ((end, laid.0), rw (virt_end, phys_end) at laid.1)
