-- ===== src/Elf/Loader/Segments.antt =====
-- Where kernel/src/elf/loader.rs puts the segments of a binary that it accepts.
use maram_os.Base.{
  ℕ, ◌+◌, ◌-◌, ◌%◌, ◌≤◌, ◌<◌, ◌≡◌, refl, Bool, true, false, ◌&&◌, ◌⊎◌, Option, none, some, List, [],
  ◌∷◌, arith, ltb, leb, subst, if◌then◌else◌, Bool-cases, inl, inr, All, add64,
}
use maram_os.Elf.Loader.{
  Abi, FileHeader, ProgramHeader, Segment, LoaderError, Result, ok, err, user_end, parse_header,
  parse_segment, parse_each, parse_segments, insert_segment, sort_segments, apart, check_no_overlap,
  in_exec, validate_entry, load, page_bytes,
}

-- A segment of whole pages below the end of user space, which hold its bytes of memory, and in
-- which its bytes of the file, which are in the file, have room.
abbrev pub IsPlaced : ℕ → Segment → Type 0
IsPlaced data_len s =
    (s.start % 4096 ≡ 0)
    × (s.end % 4096 ≡ 0)
    × (s.start ≤ s.virt_addr)
    × (0 < s.mem_size)
    × (s.virt_addr + s.mem_size ≤ s.end)
    × (s.end ≤ user_end)
    × (s.file_start ≤ s.file_end)
    × (s.file_end ≤ data_len)
    × (s.page_offset + (s.file_end - s.file_start) ≤ s.end - s.start)
    × (s.page_offset ≡ s.virt_addr - s.start)

parse_segment-IsPlaced :
    (abi : Abi) (p : ProgramHeader) (data_len base : ℕ) (s : Segment)
    → parse_segment abi p data_len base ≡ ok (some s)
    → IsPlaced data_len s
unfolding parse_segment
parse_segment-IsPlaced abi p data_len base s h = (
  ground arith,
  ground arith,
  ground arith,
  ground arith,
  ground arith,
  ground arith,
  ground arith,
  ground arith,
  ground arith,
  ground arith,
)

Result-cases {ℓ} :
    {A : Type ℓ} (r : Result A) → ((a : A) × (r ≡ ok a)) ⊎ ((e : LoaderError) × (r ≡ err e))
Result-cases (ok a) = inl (a, refl)
Result-cases (err e) = inr (e, refl)

parse_each-IsPlaced :
    (abi : Abi) (ps : List ProgramHeader) (data_len base : ℕ) (segments : List Segment)
    → parse_each abi ps data_len base ≡ ok segments
    → All (IsPlaced data_len) segments
unfolding parse_each
parse_each-IsPlaced abi [] data_len base segments h =
    let e : [] ≡ segments = cc h in subst (All (IsPlaced data_len)) e tt
parse_each-IsPlaced abi (p ∷ rest) data_len base segments h =
    let later = parse_each-IsPlaced abi rest data_len base in
    elim (Result-cases (parse_segment abi p data_len base)) [
      | inr (e, r) ↦ absurd (let x = rw (r, parse_each) at h in cc x)
      | inl (none, r) ↦ later segments (rw (r, parse_each) at h)
      | inl (some s, r) ↦ elim (Result-cases (parse_each abi rest data_len base)) [
        | inr (e, r') ↦ absurd (let x = rw (r, parse_each, r') at h in cc x)
        | inl (more, r') ↦
            let x = rw (r, parse_each, r') at h in
            let e : (s ∷ more) ≡ segments = cc x in
            subst (All (IsPlaced data_len)) e
              (parse_segment-IsPlaced abi p data_len base s r, later more r')
      ]
    ]

insert-All :
    (P : Segment → Type 0) (s : Segment) (rest : List Segment)
    → P s
    → All P rest
    → All P (insert_segment s rest)
unfolding insert_segment
insert-All P s [] h hs = (h, tt)
insert-All P s (t ∷ rest) h (ht, hs) = elim (Bool-cases (leb s.start t.start)) [
  | inl e ↦ rw e (h, (ht, hs))
  | inr e ↦ rw e (ht, insert-All P s rest h hs)
]

sort-All : (P : Segment → Type 0) (xs : List Segment) → All P xs → All P (sort_segments xs)
unfolding sort_segments
sort-All P [] h = tt
sort-All P (s ∷ rest) (h, hs) = insert-All P s (sort_segments rest) h (sort-All P rest hs)

-- Each segment ends where the next one starts, or before.
abbrev pub Ordered : List Segment → Type 0
Ordered [] = Unit
Ordered (s ∷ rest) = All (λ t. s.end ≤ t.start) rest × Ordered rest

starts_after :
    (data_len end : ℕ) (t : Segment) (rest : List Segment)
    → end ≤ t.start
    → IsPlaced data_len t
    → All (λ u. t.end ≤ u.start) rest
    → All (λ u. end ≤ u.start) rest
starts_after data_len end t [] le placed h = tt
starts_after data_len end t (u ∷ rest) le placed (h, hs) =
    let (a, b, lo, pos, hi, top, c, d, e, f) = placed in
    (omega arith, starts_after data_len end t rest le placed hs)

apart-Ordered :
    (data_len : ℕ) (xs : List Segment) → All (IsPlaced data_len) xs → apart xs ≡ true → Ordered xs
unfolding apart
apart-Ordered data_len [] placed h = tt
apart-Ordered data_len (s ∷ []) placed h = (tt, tt)
apart-Ordered data_len (s ∷ t ∷ rest) (ps, (pt, placed)) h = elim (Bool-cases (ltb t.start s.end)) [
  | inl e ↦ absurd (let x = rw e at h in cc x)
  | inr e ↦
      let later = apart-Ordered data_len (t ∷ rest) (pt, placed) (rw e at h) in
      let le : s.end ≤ t.start = ground arith in
      ((le, starts_after data_len s.end t rest le pt later.0), later)
]

-- An address of the memory of an executable segment.
abbrev pub Executes : ℕ → List Segment → Type 0
Executes entry [] = ⊥
Executes entry (s ∷ rest) =
    ((s.executable ≡ true) × (s.virt_addr ≤ entry) × (entry < s.virt_addr + s.mem_size))
    ⊎ Executes entry rest

in_exec-Executes :
    (data_len entry : ℕ) (xs : List Segment)
    → All (IsPlaced data_len) xs
    → in_exec entry xs ≡ true
    → Executes entry xs
unfolding in_exec
in_exec-Executes data_len entry [] placed h = absurd (cc h)
in_exec-Executes data_len entry (s ∷ rest) ((a, b, lo, pos, hi, top, c, d, f, g), placed) h =
    elim (Bool-cases
      (s.executable && leb s.virt_addr entry && ltb entry (add64 s.virt_addr s.mem_size))) [
        | inl e ↦ inl (ground arith, ground arith, ground arith)
        | inr e ↦ inr (in_exec-Executes data_len entry rest placed (rw e at h))
      ]

parse_segments-IsPlaced :
    (abi : Abi) (phdrs : Option (List ProgramHeader)) (data_len base : ℕ) (segments : List Segment)
    → parse_segments abi phdrs data_len base ≡ ok segments
    → All (IsPlaced data_len) segments
unfolding parse_segments
parse_segments-IsPlaced abi none data_len base segments h = absurd (cc h)
parse_segments-IsPlaced abi (some ps) data_len base segments h =
    elim (Result-cases (parse_each abi ps data_len base)) [
      | inr (e, r) ↦ absurd (let x = rw (r, parse_segments) at h in cc x)
      | inl ([], r) ↦ absurd (let x = rw (r, parse_segments) at h in cc x)
      | inl (s ∷ rest, r) ↦
          let x = rw (r, parse_segments) at h in
          let e : (s ∷ rest) ≡ segments = cc x in
          subst (All (IsPlaced data_len)) e (parse_each-IsPlaced abi ps data_len base (s ∷ rest) r)
    ]

checked_segments :
    (data_len : ℕ) (parsed sorted : List Segment)
    → All (IsPlaced data_len) parsed
    → check_no_overlap parsed ≡ ok sorted
    → All (IsPlaced data_len) sorted × Ordered sorted
unfolding check_no_overlap
checked_segments data_len parsed sorted placed h =
    elim (Bool-cases (apart (sort_segments parsed))) [
      | inr e ↦ absurd (let x = rw e at h in cc x)
      | inl e ↦
          let x = rw e at h in
          let same : sort_segments parsed ≡ sorted = cc x in
          let all = sort-All (IsPlaced data_len) parsed placed in
          subst (λ xs. All (IsPlaced data_len) xs × Ordered xs) same
            (all, apart-Ordered data_len (sort_segments parsed) all e)
    ]

valid_entry :
    (is_canonical : ℕ → Bool) (e_entry base data_len at : ℕ) (segments : List Segment)
    → All (IsPlaced data_len) segments
    → validate_entry is_canonical e_entry base segments ≡ ok at
    → Executes at segments × (is_canonical at ≡ true)
unfolding validate_entry
valid_entry is_canonical e_entry base data_len at segments placed h =
    let found : in_exec at segments ≡ true = ground arith in
    (in_exec-Executes data_len at segments placed found, ground arith)

-- If a binary is accepted, each of its segments is of whole pages below the end of user space,
-- which hold its memory and have room for its bytes of the file, none of which is past the end of
-- the file; no two segments share a page; and the entry is in the memory of an executable one.
pub load_lem :
    (abi : Abi) (is_canonical : ℕ → Bool) (h : FileHeader) (phdrs : Option (List ProgramHeader))
    (data_len entry : ℕ) (segments : List Segment)
    → load abi is_canonical h phdrs data_len ≡ ok (entry, segments)
    → All (IsPlaced data_len) segments
      × Ordered segments
      × Executes entry segments
      × (is_canonical entry ≡ true)
unfolding load
load_lem abi is_canonical h phdrs data_len entry segments accepted =
    elim (Result-cases (parse_header abi h)) [
      | inr (e, r) ↦ absurd (let x = rw (load, r) at accepted in cc x)
      | inl (base, r) ↦ elim (Result-cases (parse_segments abi phdrs data_len base)) [
        | inr (e, r') ↦ absurd (let x = rw (load, r, r') at accepted in cc x)
        | inl (parsed, r') ↦ elim (Result-cases (check_no_overlap parsed)) [
          | inr (e, r'') ↦ absurd (let x = rw (load, r, r', r'') at accepted in cc x)
          | inl (sorted, r'') ↦
              elim (Result-cases (validate_entry is_canonical h.e_entry base sorted)) [
                | inr (e, v) ↦ absurd (let x = rw (load, r, r', r'', v) at accepted in cc x)
                | inl (at, v) ↦
                    let x = rw (load, r, r', r'', v) at accepted in
                    let same_entry : at ≡ entry = cc x in
                    let same_segments : sorted ≡ segments = cc x in
                    let placed = parse_segments-IsPlaced abi phdrs data_len base parsed r' in
                    let checked = checked_segments data_len parsed sorted placed r'' in
                    let valid =
                      valid_entry is_canonical h.e_entry base data_len at sorted checked.0 v in
                    subst
                      (λ n.
                        All (IsPlaced data_len) segments
                        × Ordered segments
                        × Executes n segments
                        × (is_canonical n ≡ true))
                      same_entry
                      (subst
                        (λ xs.
                          All (IsPlaced data_len) xs
                          × Ordered xs
                          × Executes at xs
                          × (is_canonical at ≡ true))
                        same_segments (checked.0, checked.1, valid.0, valid.1))
              ]
        ]
      ]
    ]

-- The memory of a segment starts with its bytes of the file; the rest of its pages is zero.
pub page_bytes_lem :
    (data_len : ℕ) (s : Segment) (bytes : ℕ → ℕ) (address : ℕ)
    → IsPlaced data_len s
    → s.start ≤ address
    → page_bytes s bytes (address - s.start) ≡ (
        if leb s.virt_addr address && ltb address (s.virt_addr + (s.file_end - s.file_start))
        then bytes (s.file_start + (address - s.virt_addr))
        else 0)
unfolding page_bytes
page_bytes_lem data_len s bytes address (a, b, lo, pos, hi, top, c, d, e, offset) le =
    elim (Bool-cases
      (leb s.virt_addr address && ltb address (s.virt_addr + (s.file_end - s.file_start)))) [
        | inl inside ↦
            let here : (leb s.page_offset (address - s.start)
                  && ltb (address - s.start) (s.page_offset + (s.file_end - s.file_start)))
                ≡ true =
              ground arith in
            let from : address - s.start - s.page_offset ≡ address - s.virt_addr = ground arith in
            rw (inside, here, from) refl
        | inr outside ↦
            let there : (leb s.page_offset (address - s.start)
                  && ltb (address - s.start) (s.page_offset + (s.file_end - s.file_start)))
                ≡ false =
              ground arith in
            rw (outside, there) refl
      ]
