-- ===== src/Fs/LemonFs/SwapRemove.antt =====
-- `swap_remove` of a vector takes one element out and keeps the others, in another order.
use maram_os.Base.{
  ℕ, suc, zero, ◌-◌, ◌<◌, ◌≡◌, refl, ◌==◌, ==_iff, some, List, [], ◌∷◌, ◌++◌, ◌∙◌, ap, sym, subst,
  Bool-cases, inl, inr, get_elem?, set, length, arith, length-set, get_elem?-set_self,
  get_elem?-set_ne, get_elem?_below,
}
use mathlib.Core.List.{Perm, perm_append_singleton}
use mathlib.Core.List.Perm
use maram_os.Fs.LemonFs.Entries.{without_last, swap_remove}

module _ {ℓ} {A : Type ℓ} where
  get_elem?-length : (xs : List A) (i : ℕ) (x : A) → get_elem? xs i ≡ some x → i < length xs
  get_elem?-length [] i x h = absurd (cc h)
  get_elem?-length (y ∷ ys) zero x h = omega arith
  get_elem?-length (y ∷ ys) (suc i) x h = omega (arith, get_elem?-length ys i x h)

  without_last-append :
      (xs : List A) (k : ℕ) (y : A)
      → suc k ≡ length xs
      → get_elem? xs k ≡ some y
      → xs ≡ without_last xs ++ y ∷ []
  unfolding without_last
  without_last-append [] k y e h = absurd (cc h)
  without_last-append (x ∷ []) zero y e h = let k : x ≡ y = cc h in ap (λ z. z ∷ []) k
  without_last-append (x ∷ []) (suc k) y e h = absurd (omega arith)
  without_last-append (x ∷ z ∷ rest) zero y e h = absurd (omega arith)
  without_last-append (x ∷ z ∷ rest) (suc k) y e h =
      ap (λ r. x ∷ r) (without_last-append (z ∷ rest) k y (omega arith) h)

  perm-set :
      (xs : List A) (i : ℕ) (x y : A) → get_elem? xs i ≡ some x → Perm (y ∷ xs) (x ∷ set xs i y)
  perm-set [] i x y h = absurd (cc h)
  perm-set (z ∷ zs) zero x y h =
      let k : z ≡ x = cc h in subst (λ w. Perm (y ∷ z ∷ zs) (w ∷ y ∷ zs)) k (Perm.swap z y zs)
  perm-set (z ∷ zs) (suc i) x y h =
      Perm.trans (Perm.swap z y zs)
        (Perm.trans (Perm.cons z (perm-set zs i x y h)) (Perm.swap x z (set zs i y)))

  set-last :
      (xs : List A) (i : ℕ) (x y : A)
      → get_elem? xs i ≡ some x
      → get_elem? xs (length xs - 1) ≡ some y
      → get_elem? (set xs i y) (length xs - 1) ≡ some y
  set-last xs i x y h hy = elim (Bool-cases (i == (length xs - 1))) [
    | inl e ↦
        let k : i ≡ length xs - 1 = (==_iff i (length xs - 1)).0 e in
        subst (λ j. get_elem? (set xs i y) j ≡ some y) k (get_elem?-set_self xs i y x h)
    | inr e ↦
        get_elem?-set_ne xs i (length xs - 1) y
          (λ k. absurd (cc (sym e ∙ (==_iff i (length xs - 1)).1 k)))
        ∙ hy
  ]

  -- An element that is there can be taken out: the list is then, up to the order, that element and
  -- what stays.
  pub swap_remove-Perm :
      (xs : List A) (i : ℕ) (x : A)
      → get_elem? xs i ≡ some x
      → (rest : List A) × (swap_remove xs i ≡ some (x, rest)) × Perm xs (x ∷ rest)
  unfolding swap_remove without_last
  swap_remove-Perm xs i x h =
      let last = get_elem?_below xs (length xs - 1) (omega (arith, get_elem?-length xs i x h)) in
      let y = last.0 in
      let rest = without_last (set xs i y) in
      (
        rest,
        rw (swap_remove, h, last.1) refl,
        Perm.cons_inv (
            Perm.trans (perm-set xs i x y h) (
              subst (λ r. Perm (x ∷ r) (y ∷ x ∷ rest))
                (sym (
                  without_last-append (set xs i y) (length xs - 1) y
                    (omega (arith, length-set xs i y, get_elem?-length xs i x h))
                    (set-last xs i x y h last.1)))
                (Perm.trans (Perm.cons x (perm_append_singleton y rest)) (Perm.swap y x rest)))),
      )
