-- ===== src/Scheduling/Scheduler/Steal.antt =====
-- Which tasks `take_user_tasks` of kernel/src/scheduling/scheduler.rs takes.
use maram_os.Base.{
  ℕ, ◌+◌, ◌≤◌, ◌<◌, ◌≡◌, refl, true, ◌⊎◌, none, some, List, [], ◌∷◌, ◌++◌, arith, ltb, leb, ltb→lt,
  if◌then◌else◌, Bool-cases, inl, inr, All, All-append, length, append_assoc, length-append,
}
use maram_os.Scheduling.Task.{Task, TaskType, kernel, user}
use maram_os.Scheduling.Scheduler.{
  Scheduler, is_user, task_count, pop_queue, take_at, take_user_tasks,
}
use maram_os.Scheduling.Scheduler.Wake.{remove_at-append}
use maram_os.Scheduling.Scheduler.Switch.{tally, tally-append}

-- The tasks taken, the last first, and the tasks left, in order.
picked : List Task → ℕ → ℕ → List Task
picked [] found count = []
picked (t ∷ rest) found count =
    let hit = picked rest (found + 1) count in
    let miss = picked rest found count in
    if leb count found then [] else if is_user t then hit ++ t ∷ [] else miss

left : List Task → ℕ → ℕ → List Task
left [] found count = []
left (t ∷ rest) found count =
    let hit = left rest (found + 1) count in
    let miss = left rest found count in
    if leb count found then t ∷ rest else if is_user t then hit else t ∷ miss

take_at_lem :
    (xs pre : List Task) (found count : ℕ)
    → take_at (pop_queue xs (length pre) found count) (pre ++ xs)
      ≡ some (picked xs found count, pre ++ left xs found count)
unfolding take_at pop_queue picked left
take_at_lem [] pre found count = refl
take_at_lem (t ∷ rest) pre found count =
    let len : length (pre ++ t ∷ []) ≡ length pre + 1 = length-append pre (t ∷ []) in
    let ih_hit = take_at_lem rest (pre ++ t ∷ []) (found + 1) count in
    let ih_miss = take_at_lem rest (pre ++ t ∷ []) found count in
    let hit = rw (len, append_assoc pre (t ∷ []) rest) at ih_hit in
    let miss = rw (len, append_assoc pre (t ∷ []) rest) at ih_miss in
    elim (Bool-cases (leb count found)) [
      | inl e ↦ rw e refl
      | inr e ↦ elim (Bool-cases (is_user t)) [
        | inl u ↦
            rw
              (
                e,
                u,
                take_at,
                hit,
                append_assoc pre (t ∷ []) (left rest (found + 1) count),
                remove_at-append pre t (left rest (found + 1) count),
              )
              refl
        | inr u ↦ rw (e, u, miss, append_assoc pre (t ∷ []) (left rest found count)) refl
      ]
    ]

tally-picked :
    (k : ℕ) (xs : List Task) (found count : ℕ)
    → tally k (picked xs found count) + tally k (left xs found count) ≡ tally k xs
unfolding picked left
tally-picked k [] found count = refl
tally-picked k (t ∷ rest) found count =
    let hit = tally-picked k rest (found + 1) count in
    let miss = tally-picked k rest found count in
    elim (Bool-cases (leb count found)) [
      | inl e ↦ rw e (omega arith)
      | inr e ↦ elim (Bool-cases (is_user t)) [
        | inl u ↦ rw (e, u) (omega (arith, tally-append k (picked rest (found + 1) count) (t ∷ [])))
        | inr u ↦ rw (e, u) (omega arith)
      ]
    ]

IsUser : Task → Type 0
IsUser t = is_user t ≡ true

picked-IsUser : (xs : List Task) (found count : ℕ) → All IsUser (picked xs found count)
unfolding picked IsUser
picked-IsUser [] found count = tt
picked-IsUser (t ∷ rest) found count =
    let hit = picked-IsUser rest (found + 1) count in
    let miss = picked-IsUser rest found count in
    elim (Bool-cases (leb count found)) [
      | inl e ↦ rw e tt
      | inr e ↦ elim (Bool-cases (is_user t)) [
        | inl u ↦ rw (e, u) (All-append IsUser (picked rest (found + 1) count) (t ∷ []) hit (u, tt))
        | inr u ↦ rw (e, u) miss
      ]
    ]

Type-cases : (t : TaskType) → (t ≡ kernel) ⊎ ((a b c d : ℕ) × (t ≡ user a b c d))
Type-cases kernel = inl refl
Type-cases (user a b c d) = inr (a, b, c, d, refl)

task_count-user :
    (t : Task) (rest : List Task)
    → (task_count (t ∷ rest)).1
      ≡ (if is_user t then (task_count rest).1 + 1 else (task_count rest).1)
unfolding task_count is_user
task_count-user t rest = elim (Type-cases t.type_) [
  | inl e ↦ rw (task_count, is_user, e) refl
  | inr (a, b, c, d, e) ↦ rw (task_count, is_user, e) refl
]

length-picked :
    (xs : List Task) (found count : ℕ)
    → found ≤ count
    → count ≤ found + (task_count xs).1
    → length (picked xs found count) + found ≡ count
unfolding picked task_count
length-picked [] found count le enough = omega arith
length-picked (t ∷ rest) found count le enough =
    let users = task_count-user t rest in
    elim (Bool-cases (leb count found)) [
      | inl e ↦ rw e (ground arith)
      | inr e ↦ elim (Bool-cases (is_user t)) [
        | inl u ↦
            let more = rw u at users in
            let hit = length-picked rest (found + 1) count (ground arith) (omega arith) in
            rw (e, u) (omega (arith, length-append (picked rest (found + 1) count) (t ∷ [])))
        | inr u ↦
            let more = rw u at users in rw (e, u) (length-picked rest found count le (omega arith))
      ]
    ]

-- `take_user_tasks` gives `None` exactly when there are too few user tasks; otherwise it gives
-- `count` tasks, all of them user tasks, and every task that it does not give stays ready.
pub take_user_tasks-Taken :
    (s : Scheduler) (count : ℕ)
    → ((task_count s.queue).1 < count) × (take_user_tasks s count ≡ none)
      ⊎ ((tasks rest : List Task) × (take_user_tasks s count
            ≡ some (tasks, record s { queue = rest }))
          × (length tasks ≡ count)
          × All (λ t. is_user t ≡ true) tasks
          × ((k : ℕ) → tally k tasks + tally k rest ≡ tally k s.queue))
unfolding take_user_tasks IsUser
take_user_tasks-Taken s count = elim (Bool-cases (ltb (task_count s.queue).1 count)) [
  | inl e ↦ inl (ltb→lt _ _ e, rw e refl)
  | inr e ↦ inr (
    picked s.queue 0 count,
    left s.queue 0 count,
    rw (e, take_user_tasks, take_at_lem s.queue [] 0 count) refl,
    omega (arith, length-picked s.queue 0 count (omega arith) (ground arith)),
    picked-IsUser s.queue 0 count,
    (λ k. tally-picked k s.queue 0 count),
  )
]
