-- ===== src/Fs/Directory/Sync/Written.antt =====
-- What the sectors of a chain hold after every one of them was written.
use maram_os.Base.{
  ℕ, suc, zero, ◌+◌, ◌≤◌, ◌<◌, ◌≡◌, ◌≢◌, refl, false, ◌==◌, ==_iff, some, List, ◌∙◌, ap, sym, subst,
  Bool-cases, Option-cases, inl, inr, get_elem?, ltb, update, update_self, update_ne, arith,
}
use maram_os.Fs.Store.{Sector, ok, LemonFs, write_data}
use maram_os.Fs.Store.Keeps.{bind_ok}
use maram_os.Fs.Directory.Sync.{write_each}

apart_test : (a b : ℕ) → a ≢ b → (a == b) ≡ false
apart_test a b h = elim (Bool-cases (a == b)) [ inl e ↦ absurd (h ((==_iff a b).0 e)) | inr e ↦ e ]

module _ (sectors : ℕ) where
  pub write_data_disk :
      (lba : ℕ) (x : Sector) (s : LemonFs)
      → (write_data sectors lba x s).0 ≡ ok tt
      → (write_data sectors lba x s).1.disk ≡ update s.disk lba x
  unfolding write_data
  write_data_disk lba x s h = elim (Bool-cases (ltb lba sectors)) [
    | inl e ↦ rw e refl
    | inr e ↦ absurd (cc (rw e at h))
  ]

  module _ (chain : List ℕ) (block : ℕ → Sector) where
    -- The sector and the state that the next round starts from.
    next_round :
        (rounds i : ℕ) (s t : LemonFs)
        → write_each sectors chain block (suc rounds) i s ≡ (ok tt, t)
        → (lba : ℕ) × (u : LemonFs) × (get_elem? chain i ≡ some lba)
          × (u.disk ≡ update s.disk lba (block i))
          × (write_each sectors chain block rounds (i + 1) u ≡ (ok tt, t))
    unfolding write_each
    next_round rounds i s t h = elim (Option-cases (get_elem? chain i)) [
      | inl e ↦ absurd (cc (ap (λ p. p.0) (rw (write_each, e) at h)))
      | inr (lba, e) ↦
          let b = bind_ok (write_data sectors lba (block i)) _ s tt t (rw (write_each, e) at h) in
          (lba, (write_data sectors lba (block i) s).1, e, write_data_disk lba (block i) s b.1, b.2)
    ]

    -- Sectors that are not in the rest of the chain stay as they are.
    pub write_each-else :
        (rounds i : ℕ) (s t : LemonFs) (lba : ℕ)
        → write_each sectors chain block rounds i s ≡ (ok tt, t)
        → ((j : ℕ) → i ≤ j → get_elem? chain j ≢ some lba)
        → t.disk lba ≡ s.disk lba
    unfolding write_each
    write_each-else zero i s t lba h apart = ap (λ p. p.1.disk lba) (sym h)
    write_each-else (suc rounds) i s t lba h apart =
        let n = next_round rounds i s t h in
        write_each-else rounds (i + 1) n.1 t lba n.4 (λ j le. apart j (omega arith))
        ∙ ap (λ d. d lba) n.3
        ∙ update_ne s.disk n.0 lba (block i)
            (apart_test lba n.0 (λ e. apart i (omega arith) (n.2 ∙ ap some (sym e))))

    -- On a chain without repetition, each sector holds the block of its place.
    pub write_each-at :
        (rounds i : ℕ) (s t : LemonFs) (j lba : ℕ)
        → ((a b x : ℕ) → get_elem? chain a ≡ some x → get_elem? chain b ≡ some x → a ≡ b)
        → write_each sectors chain block rounds i s ≡ (ok tt, t)
        → i ≤ j
        → j < i + rounds
        → get_elem? chain j ≡ some lba
        → t.disk lba ≡ block j
    write_each-at zero i s t j lba injective h le lt e = absurd (omega arith)
    write_each-at (suc rounds) i s t j lba injective h le lt e =
        let n = next_round rounds i s t h in
        elim (Bool-cases (i == j)) [
          | inl at_i ↦
              let same : i ≡ j = (==_iff i j).0 at_i in
              let here : get_elem? chain i ≡ some lba =
                subst (λ k. get_elem? chain k ≡ some lba) (sym same) e in
              let sector : n.0 ≡ lba = cc (sym n.2 ∙ here) in
              write_each-else rounds (i + 1) n.1 t lba n.4
                (λ k le' at_k. absurd (omega (arith, injective k i lba at_k here)))
              ∙ ap (λ d. d lba) n.3
              ∙ subst (λ x. update s.disk x (block i) lba ≡ block i) (sym sector)
                  (update_self s.disk lba (block i))
              ∙ ap block same
          | inr later ↦
              write_each-at rounds (i + 1) n.1 t j lba injective n.4 (ground (arith, ==_iff i j))
                (omega arith) e
        ]
