-- ===== src/Storage/Gpt/Entries.antt =====
-- The partitions that the scan of kernel/src/drivers/storage/gpt/mod.rs finds.
use maram_os.Base.{
  ℕ, zero, suc, ◌+◌, ◌-◌, ◌≤◌, ◌<◌, ◌≡◌, refl, true, false, ◌||◌, ◌⊎◌, Option, none, some, List, [],
  ◌∷◌, ◌++◌, arith, ◌∙◌, ap, sym, subst, Bool-cases, inl, inr, length, sub64, u64_mod, add64, map,
  append_assoc, append-nil,
}
use maram_os.Storage.Gpt.{
  GptHeader, PartitionEntry, Partition, zero_guid, same_guid, partition_of, last_of, overlaps,
  is_bad, scan_entries,
}

-- Entries that the pages hold one after the other from `offset` on, up to the end of the pages or
-- an entry without a type.
abbrev pub Reads : (ℕ → Option PartitionEntry) → ℕ → ℕ → List PartitionEntry → Type 0
Reads read bytes offset [] =
    (read offset ≡ none)
    ⊎ ((e : PartitionEntry) × (read offset ≡ some e) × (same_guid e.type_guid zero_guid ≡ true))
Reads read bytes offset (e ∷ rest) =
    (read offset ≡ some e)
    × (same_guid e.type_guid zero_guid ≡ false)
    × Reads read bytes (add64 offset bytes) rest

-- Entries of which none is skipped after the partition `last`.
abbrev pub Fits : GptHeader → Option Partition → List PartitionEntry → Type 0
Fits h last [] = Unit
Fits h last (e ∷ rest) =
    (overlaps last e ≡ false) × (is_bad h e ≡ false) × Fits h (some (partition_of e)) rest

last_of-append : (res : List Partition) (p : Partition) → last_of (res ++ p ∷ []) ≡ some p
unfolding last_of
last_of-append [] p = refl
last_of-append (q ∷ []) p = refl
last_of-append (q ∷ r ∷ rest) p = last_of-append (r ∷ rest) p

-- If the entries up to the last one are fit, the scan ends, within one round for each and one
-- more, and gives the partitions of all of them.
pub scan_entries-Fits :
    (es : List PartitionEntry) (read : ℕ → Option PartitionEntry) (h : GptHeader) (offset extra : ℕ)
    (res : List Partition)
    → Reads read h.entry_byte_count offset es
    → Fits h (last_of res) es
    → scan_entries (suc (length es + extra)) read h offset res ≡ some (res ++ map partition_of es)
unfolding scan_entries
scan_entries-Fits [] read h offset extra res (inl e) fits =
    rw (scan_entries, e) (ap some (sym (append-nil res)))
scan_entries-Fits [] read h offset extra res (inr (e, at, z)) fits =
    rw (scan_entries, at, z) (ap some (sym (append-nil res)))
scan_entries-Fits (e ∷ rest) read h offset extra res (at, nonzero, reads) (apart, fine, fits) =
    let p = partition_of e in
    let fits' = subst (λ l. Fits h l rest) (sym (last_of-append res p)) fits in
    let ih =
      scan_entries-Fits rest read h (add64 offset h.entry_byte_count) extra (res ++ p ∷ []) reads
        fits' in
    let fuel : suc (length rest) + extra ≡ suc (length rest + extra) = omega arith in
    subst (λ f. scan_entries (suc f) read h offset res ≡ some (res ++ map partition_of (e ∷ rest)))
      (sym fuel)
      (rw (scan_entries, at, nonzero, apart, fine)
        (ih ∙ ap some (append_assoc res (p ∷ []) (map partition_of rest))))

-- An entry that is to be skipped is never passed: no number of rounds ends the scan.
pub scan_entries-skipped :
    (fuel : ℕ) (read : ℕ → Option PartitionEntry) (h : GptHeader) (offset : ℕ)
    (res : List Partition) (e : PartitionEntry)
    → read offset ≡ some e
    → same_guid e.type_guid zero_guid ≡ false
    → (overlaps (last_of res) e || is_bad h e) ≡ true
    → scan_entries fuel read h offset res ≡ none
unfolding scan_entries
scan_entries-skipped zero read h offset res e at nonzero skip = refl
scan_entries-skipped (suc fuel) read h offset res e at nonzero skip =
    let ih = scan_entries-skipped fuel read h offset res e at nonzero skip in
    elim (Bool-cases (overlaps (last_of res) e)) [
      | inl o ↦ rw (scan_entries, at, nonzero, o) ih
      | inr o ↦
          let bad : is_bad h e ≡ true = rw o at skip in rw (scan_entries, at, nonzero, o, bad) ih
    ]

-- Partitions in the order of the drive that do not overlap, from the block `from` on up to the
-- block `last`.
abbrev pub Disjoint : ℕ → ℕ → List Partition → Type 0
Disjoint from last [] = Unit
Disjoint from last (p ∷ rest) =
    (from ≤ p.start)
    × (0 < p.size_blocks)
    × (p.start + p.size_blocks ≤ last + 1)
    × Disjoint (p.start + p.size_blocks) last rest

abbrev end_of : Option Partition → ℕ → ℕ
end_of none first = first
end_of (some p) first = p.start + p.size_blocks

Fits-Disjoint :
    (h : GptHeader) (es : List PartitionEntry) (from : ℕ) (last : Option Partition)
    → h.last_usable < u64_mod - 1
    → from ≡ end_of last h.first_usable
    → from < u64_mod
    → Fits h last es
    → Disjoint from h.last_usable (map partition_of es)
unfolding partition_of overlaps is_bad
Fits-Disjoint h [] from last small e lt fits = tt
Fits-Disjoint h (e ∷ rest) from last small eq lt (apart, fine, fits) =
    let after = ends_after last eq apart in
    let inside : e.end_block ≤ h.last_usable = ground arith in
    let order : e.start_block ≤ e.end_block = ground arith in
    let size : add64 (sub64 e.end_block e.start_block) 1 ≡ e.end_block - e.start_block + 1 =
      omega arith in
    rw size (
      after,
      omega arith,
      omega arith,
      Fits-Disjoint h rest (e.start_block + (e.end_block - e.start_block + 1))
          (some (partition_of e)) small (ap (λ n. e.start_block + n) (sym size)) (omega arith) fits,
    )
  where
    ends_after :
        (last : Option Partition)
        → from ≡ end_of last h.first_usable
        → overlaps last e ≡ false
        → from ≤ e.start_block
    ends_after none eq apart = ground arith
    ends_after (some p) eq apart = ground arith

-- The partitions of fit entries lie in the usable blocks, in their order, and do not overlap,
-- when the usable blocks end below the last 64-bit number.
pub partitions-Disjoint :
    (h : GptHeader) (es : List PartitionEntry)
    → h.last_usable < u64_mod - 1
    → h.first_usable < u64_mod
    → Fits h none es
    → Disjoint h.first_usable h.last_usable (map partition_of es)
partitions-Disjoint h es small first fits =
    Fits-Disjoint h es h.first_usable none small refl first fits
