-- ===== src/Scheduling/Scheduler/Queues.antt =====
-- Which CPU `busiest_queue` and `laziest_queue` of kernel/src/scheduling/mod.rs choose.
use maram_os.Base.{
  ℕ, suc, ◌+◌, ◌-◌, ◌≤◌, ◌<◌, ◌≡◌, refl, Option, none, some, List, [], ◌∷◌, arith, ltb, ◌==◌, ◌∙◌,
  ap, sym, ltb→lt, if◌then◌else◌, Bool-cases, inl, inr, All, get_elem?, u64_mod,
}
use maram_os.Scheduling.Scheduler.{Scheduler, task_count}

abbrev pub users : Scheduler → ℕ
users s = (task_count s.queue).1

-- `busiest_queue` from the CPU with id `id` on.
unfoldable pub busiest_from : List Scheduler → ℕ → ℕ → Option ℕ → Option (ℕ × ℕ)
busiest_from [] id best busy = elim busy [ none ↦ none | some cpu ↦ some (cpu, best) ]
busiest_from (s ∷ rest) id best busy =
    let better = busiest_from rest (id + 1) (users s) (some id) in
    let same = busiest_from rest (id + 1) best busy in if ltb best (users s) then better else same

unfoldable pub busiest_queue : List Scheduler → Option (ℕ × ℕ)
unfolding busiest_from
busiest_queue cpus = busiest_from cpus 0 0 none

-- `laziest_queue` from the CPU with id `id` on.
unfoldable pub laziest_from : List Scheduler → ℕ → ℕ → Option ℕ → Option (ℕ × ℕ)
laziest_from [] id least lazy = elim lazy [ none ↦ none | some cpu ↦ some (cpu, least) ]
laziest_from (s ∷ rest) id least lazy =
    let better = laziest_from rest (id + 1) (users s) (some id) in
    let same = laziest_from rest (id + 1) least lazy in
    if users s == 0 then some (id, 0) else if ltb (users s) least then better else same

unfoldable pub laziest_queue : List Scheduler → Option (ℕ × ℕ)
unfolding laziest_from
laziest_queue cpus = laziest_from cpus 0 (u64_mod - 1) none

-- What `lazy` or `busy` says of the CPUs looked at so far.
Holds : List Scheduler → ℕ → Option ℕ → Type 0
Holds cpus best none = Unit
Holds cpus best (some cpu) = (s : Scheduler) × (get_elem? cpus cpu ≡ some s) × (users s ≡ best)

Suffix : List Scheduler → ℕ → List Scheduler → Type 0
Suffix all id rest = (i : ℕ) → get_elem? all (id + i) ≡ get_elem? rest i

Suffix-rest :
    (all rest : List Scheduler) (id : ℕ) (s : Scheduler)
    → Suffix all id (s ∷ rest)
    → (get_elem? all id ≡ some s) × Suffix all (id + 1) rest
unfolding Suffix
Suffix-rest all rest id s suffix =
    let same : id + 0 ≡ id = omega arith in
    (
      ap (get_elem? all) (sym same) ∙ suffix 0,
      (λ i.
          let shift : id + 1 + i ≡ id + suc i = omega arith in
          ap (get_elem? all) shift ∙ suffix (suc i)),
    )

Suffix-start : (all : List Scheduler) → Suffix all 0 all
unfolding Suffix
Suffix-start all i = let same : i ≡ 0 + i = omega arith in ap (get_elem? all) (sym same)

-- The answer names a CPU with as many user tasks as it says, which is at least `best` and no CPU
-- of `rest` has more.
abbrev pub Most : List Scheduler → List Scheduler → ℕ → Option (ℕ × ℕ) → Type 0
Most all rest best none = (best ≡ 0) × All (λ s. users s ≡ 0) rest
Most all rest best (some (cpu, n)) =
    ((s : Scheduler) × (get_elem? all cpu ≡ some s) × (users s ≡ n))
    × (best ≤ n)
    × All (λ s. users s ≤ n) rest

All-zero :
    (n : ℕ) (rest : List Scheduler)
    → n ≡ 0
    → All (λ s. users s ≤ n) rest
    → All (λ s. users s ≡ 0) rest
All-zero n [] e h = tt
All-zero n (s ∷ rest) e (h, hs) = (omega arith, All-zero n rest e hs)

busiest_from-Most :
    (all rest : List Scheduler) (id best : ℕ) (busy : Option ℕ)
    → Suffix all id rest
    → Holds all best busy
    → ((busy ≡ none) → best ≡ 0)
    → Most all rest best (busiest_from rest id best busy)
unfolding busiest_from Holds
busiest_from-Most all [] id best none suffix holds zero_best = (zero_best refl, tt)
busiest_from-Most all [] id best (some cpu) suffix holds zero_best = (holds, omega arith, tt)
busiest_from-Most all (s ∷ rest) id best busy suffix holds zero_best =
    let (here, later) = Suffix-rest all rest id s suffix in
    elim (Bool-cases (ltb best (users s))) [
      | inl e ↦
          let lt : best < users s = ltb→lt _ _ e in
          let ih =
            busiest_from-Most all rest (id + 1) (users s) (some id) later (s, here, refl)
              (λ h. absurd (cc h)) in
          rw e (raise (busiest_from rest (id + 1) (users s) (some id)) lt ih)
      | inr e ↦
          let le : users s ≤ best = ground arith in
          let ih = busiest_from-Most all rest (id + 1) best busy later holds zero_best in
          rw e (keep (busiest_from rest (id + 1) best busy) le ih)
    ]
  where
    raise :
        (o : Option (ℕ × ℕ))
        → best < users s
        → Most all rest (users s) o
        → Most all (s ∷ rest) best o
    raise none lt (e, h) = absurd (omega arith)
    raise (some (cpu, n)) lt (at, le, h) = (at, omega arith, (le, h))

    keep : (o : Option (ℕ × ℕ)) → users s ≤ best → Most all rest best o → Most all (s ∷ rest) best o
    keep none le (e, h) = (e, (omega arith, h))
    keep (some (cpu, n)) le (at, le', h) = (at, le', (omega arith, h))

-- `busiest_queue` gives `None` exactly when no CPU has a user task; otherwise it gives a CPU with
-- the greatest number of them, and this number.
pub busiest_queue-Most : (cpus : List Scheduler) → Most cpus cpus 0 (busiest_queue cpus)
unfolding busiest_queue Holds
busiest_queue-Most cpus = busiest_from-Most cpus cpus 0 0 none (Suffix-start cpus) tt (λ h. refl)

-- The same of the least number, where the CPU so far is `lazy`.
abbrev pub Least : List Scheduler → List Scheduler → ℕ → Option ℕ → Option (ℕ × ℕ) → Type 0
Least all rest least lazy none = (lazy ≡ none) × (rest ≡ [])
Least all rest least lazy (some (cpu, n)) =
    ((s : Scheduler) × (get_elem? all cpu ≡ some s) × (users s ≡ n))
    × (n ≤ least)
    × All (λ s. n ≤ users s) rest

All-least : (rest : List Scheduler) → All (λ s. 0 ≤ users s) rest
All-least [] = tt
All-least (s ∷ rest) = (omega arith, All-least rest)

laziest_from-Least :
    (all rest : List Scheduler) (id least : ℕ) (lazy : Option ℕ)
    → Suffix all id rest
    → Holds all least lazy
    → (lazy ≡ none → least ≡ u64_mod - 1)
    → All (λ s. users s < u64_mod - 1) rest
    → Least all rest least lazy (laziest_from rest id least lazy)
unfolding laziest_from Holds
laziest_from-Least all [] id least none suffix holds start small = (refl, refl)
laziest_from-Least all [] id least (some cpu) suffix holds start small = (holds, omega arith, tt)
laziest_from-Least all (s ∷ rest) id least lazy suffix holds start (lt, small) =
    let (here, later) = Suffix-rest all rest id s suffix in
    let better =
      laziest_from-Least all rest (id + 1) (users s) (some id) later (s, here, refl)
        (λ h. absurd (cc h)) small in
    let same = laziest_from-Least all rest (id + 1) least lazy later holds start small in
    elim (Bool-cases (users s == 0)) [
      | inl z ↦
          let none_here : users s ≡ 0 = ground arith in
          rw z ((s, here, none_here), omega arith, (omega arith, All-least rest))
      | inr z ↦ elim (Bool-cases (ltb (users s) least)) [
        | inl e ↦
            rw (z, e) (lower (laziest_from rest (id + 1) (users s) (some id)) (ltb→lt _ _ e) better)
        | inr e ↦
            let ge : least ≤ users s = ground arith in
            rw (z, e) (keep (laziest_from rest (id + 1) least lazy) ge same)
      ]
    ]
  where
    lower :
        (o : Option (ℕ × ℕ))
        → users s < least
        → Least all rest (users s) (some id) o
        → Least all (s ∷ rest) least lazy o
    lower none lt (e, h) = absurd (cc e)
    lower (some (cpu, n)) lt (at, le, h) = (at, omega arith, (le, h))

    keep :
        (o : Option (ℕ × ℕ))
        → least ≤ users s
        → Least all rest least lazy o
        → Least all (s ∷ rest) least lazy o
    keep none le (e, h) = let top = start e in absurd (omega arith)
    keep (some (cpu, n)) le (at, le', h) = (at, le', (omega arith, h))

-- When every CPU has fewer than `usize::MAX` user tasks, `laziest_queue` gives `None` exactly when
-- there is no CPU; otherwise it gives a CPU with the least number of user tasks, and this number.
pub laziest_queue-Least :
    (cpus : List Scheduler)
    → All (λ s. users s < u64_mod - 1) cpus
    → Least cpus cpus (u64_mod - 1) none (laziest_queue cpus)
unfolding laziest_queue Holds
laziest_queue-Least cpus small =
    laziest_from-Least cpus cpus 0 (u64_mod - 1) none (Suffix-start cpus) tt (λ h. refl) small
