-- ===== src/Scheduling/Scheduler/Switch.antt =====
-- No task is lost or doubled by `sched_logic` of kernel/src/scheduling/scheduler.rs.
use maram_os.Base.{
  ℕ, ◌+◌, ◌≡◌, ◌≢◌, refl, ◌⊎◌, some, List, [], ◌∷◌, ◌++◌, arith, ◌==◌, ap, sym, subst,
  if◌then◌else◌, Bool-cases, inl, inr, All, All-append,
}
use maram_os.Scheduling.Task.{Task, TaskState, Time, ready, wait, terminate}
use maram_os.Scheduling.Scheduler.{
  Scheduler, Write, enter, wakes, place, move_to_queue, switch_to, fall_back, pick, sched_logic,
}
use maram_os.Scheduling.Scheduler.Wake.{stay, woken, wake_at-wake_queue}

abbrev one : ℕ → Task → ℕ
one k t = if t.id == k then 1 else 0

-- How many tasks have the id `k`.
abbrev pub tally : ℕ → List Task → ℕ
tally k [] = 0
tally k (t ∷ rest) = one k t + tally k rest

-- The same of the tasks of a scheduler that are not terminated.
abbrev pub live : ℕ → Scheduler → ℕ
live k s =
    (elim s.curr.state [ terminate e ↦ 0 | _ ↦ one k s.curr ]) + tally k s.queue + tally k s.sleep

abbrev pub IsReady : Task → Type 0
IsReady t = t.state ≡ ready

-- Ready tasks are marked so, and the idle task, which never sleeps or ends, is there once.
abbrev pub IsFit : ℕ → Scheduler → Type 0
IsFit idle s =
    All IsReady s.queue
    × (tally idle (s.curr ∷ s.queue) ≡ 1)
    × (tally idle s.sleep ≡ 0)
    × (s.curr.id ≡ idle → IsReady s.curr)

pub tally-append : (k : ℕ) (xs ys : List Task) → tally k (xs ++ ys) ≡ tally k xs + tally k ys
tally-append k [] ys = omega arith
tally-append k (x ∷ xs) ys = omega (arith, tally-append k xs ys)

tally-stay :
    (clock : ℕ → ℕ) (k : ℕ) (xs : List Task) (i : ℕ)
    → tally k (stay clock xs i) + tally k (woken clock xs i) ≡ tally k xs
tally-stay clock k [] i = refl
tally-stay clock k (t ∷ rest) i =
    let ih = tally-stay clock k rest (i + 1) in
    elim (Bool-cases (wakes (clock i) t)) [
      | inl e ↦ rw e (
          omega
            (arith, tally-append k (woken clock rest (i + 1)) (record t { state = ready } ∷ [])))
      | inr e ↦ rw e (omega arith)
    ]

woken-IsReady : (clock : ℕ → ℕ) (xs : List Task) (i : ℕ) → All IsReady (woken clock xs i)
woken-IsReady clock [] i = tt
woken-IsReady clock (t ∷ rest) i =
    let ih = woken-IsReady clock rest (i + 1) in
    elim (Bool-cases (wakes (clock i) t)) [
      | inl e ↦ rw e (
          All-append IsReady (woken clock rest (i + 1)) (record t { state = ready } ∷ []) ih
            (refl, tt))
      | inr e ↦ rw e ih
    ]

-- What a call that the scheduler `s` is left by gives.
abbrev pub Switched : ℕ → Scheduler → ℕ × Scheduler × List Write → Type 0
Switched idle s (sp, s', writes) =
    (sp ≡ s'.curr.sp) × ((k : ℕ) → live k s' ≡ live k s) × IsFit idle s'

pub State-cases :
    (t : TaskState) → (t ≡ ready) ⊎ (((x : Time) × (t ≡ wait x)) ⊎ ((e : ℕ) × (t ≡ terminate e)))
State-cases ready = inl refl
State-cases (wait x) = inr (inl (x, refl))
State-cases (terminate e) = inr (inr (e, refl))

-- The idle task is not the one that waits or ends.
not_idle : (idle : ℕ) (t : Task) → (t.id ≡ idle → IsReady t) → t.state ≢ ready → one idle t ≡ 0
not_idle idle t safe h = elim (Bool-cases (t.id == idle)) [
  | inl e ↦ absurd (h (safe (ground arith)))
  | inr e ↦ rw e refl
]

pub move-ready :
    (s : Scheduler) (t : Task)
    → t.state ≡ ready
    → move_to_queue s t ≡ record s { queue = s.queue ++ t ∷ [] }
unfolding move_to_queue place
move-ready s t e = ap (place s t) e

pub move-wait :
    (s : Scheduler) (t : Task) (x : Time)
    → t.state ≡ wait x
    → move_to_queue s t ≡ record s { sleep = s.sleep ++ t ∷ [] }
unfolding move_to_queue place
move-wait s t x e = ap (place s t) e

pub move-terminate :
    (s : Scheduler) (t : Task) (x : ℕ)
    → t.state ≡ terminate x
    → move_to_queue s t ≡ record s { terminated = s.terminated ++ t ∷ [] }
unfolding move_to_queue place
move-terminate s t x e = ap (place s t) e

-- A ready task in front counts as itself.
live-ready :
    (k : ℕ) (s : Scheduler)
    → s.curr.state ≡ ready
    → live k s ≡ one k s.curr + tally k s.queue + tally k s.sleep
live-ready k s e = rw e refl

live-wait :
    (k : ℕ) (s : Scheduler) (x : Time)
    → s.curr.state ≡ wait x
    → live k s ≡ one k s.curr + tally k s.queue + tally k s.sleep
live-wait k s x e = rw e refl

live-terminate :
    (k : ℕ) (s : Scheduler) (x : ℕ)
    → s.curr.state ≡ terminate x
    → live k s ≡ tally k s.queue + tally k s.sleep
live-terminate k s x e = rw e (omega arith)

switch_to-Switched :
    (kernel_l4 idle : ℕ) (s : Scheduler) (next : Task) (rest : List Task)
    → IsFit idle (record s { queue = next ∷ rest })
    → Switched idle
        (record s { queue = next ∷ rest })
        (switch_to kernel_l4 (record s { queue = rest }) next)
unfolding switch_to move_to_queue
switch_to-Switched kernel_l4 idle s next rest ((is_ready, all), once, never, safe) =
    elim (State-cases s.curr.state) [
      | inl e ↦ onto (move-ready s' s.curr e) (
        refl,
        (λ k.
            let now = live-ready k (record s' { queue = rest ++ s.curr ∷ [] }) is_ready in
            let before = live-ready k (record s { queue = next ∷ rest }) e in
            omega (arith, tally-append k rest (s.curr ∷ []))),
        (
          All-append IsReady rest (s.curr ∷ []) all (e, tt),
          omega (arith, tally-append idle rest (s.curr ∷ [])),
          never,
          (λ h. is_ready),
        ),
      )
      | inr (inl (x, e)) ↦
          let other = not_idle idle s.curr safe (λ h. absurd (cc (e, h))) in
          onto (move-wait s' s.curr x e) (
            refl,
            (λ k.
                let now = live-ready k (record s' { sleep = s.sleep ++ s.curr ∷ [] }) is_ready in
                let before = live-wait k (record s { queue = next ∷ rest }) x e in
                omega (arith, tally-append k s.sleep (s.curr ∷ []))),
            (
              all,
              omega arith,
              omega (arith, tally-append idle s.sleep (s.curr ∷ [])),
              (λ h. is_ready),
            ),
          )
      | inr (inr (x, e)) ↦
          let other = not_idle idle s.curr safe (λ h. absurd (cc (e, h))) in
          onto (move-terminate s' s.curr x e) (
            refl,
            (λ k.
                let now = live-ready k s' is_ready in
                let before = live-terminate k (record s { queue = next ∷ rest }) x e in
                omega arith),
            (all, omega arith, never, (λ h. is_ready)),
          )
    ]
  where
    s' : Scheduler
    s' = record s { curr = next; queue = rest }

    onto :
        {m : Scheduler}
        → move_to_queue s' s.curr ≡ m
        → (next.sp ≡ m.curr.sp)
          × ((k : ℕ)
              → live k (record m { terminated = [] }) ≡ live k (record s { queue = next ∷ rest }))
          × IsFit idle m
        → Switched idle
            (record s { queue = next ∷ rest })
            (switch_to kernel_l4 (record s { queue = rest }) next)
    onto {m} e given =
        subst
          (λ x.
            Switched idle (record s { queue = next ∷ rest })
              (next.sp, record x { terminated = [] }, enter kernel_l4 next.type_))
          (sym e) given

pick-Switched :
    (kernel_l4 : ℕ) (idle : Task) (s : Scheduler)
    → IsFit idle.id s
    → Switched idle.id s (pick kernel_l4 idle s)
unfolding pick fall_back
pick-Switched kernel_l4 idle s fit = go s.queue fit
  where
    go :
        (queue : List Task)
        → IsFit idle.id (record s { queue = queue })
        → Switched idle.id
            (record s { queue = queue })
            (pick kernel_l4 idle (record s { queue = queue }))
    go (next ∷ rest) fit = switch_to-Switched kernel_l4 idle.id s next rest fit
    go [] (all, once, never, safe) =
        let is_idle : s.curr.id ≡ idle.id = ground arith in
        let is_ready = safe is_idle in
        let early : pick kernel_l4 idle (record s { queue = [] })
            ≡ (s.curr.sp, record s { queue = [] }, []) =
          ap (fall_back kernel_l4 idle (record s { queue = [] })) is_ready in
        subst (Switched idle.id (record s { queue = [] })) (sym early)
          (refl, (λ k. refl), (all, once, never, safe))

-- `sched_logic` does not panic: it picks from the scheduler in which exactly the tasks that are
-- due have moved, made ready, from the sleeping ones to the end of the ready queue.
pub sched_logic-wakes :
    (kernel_l4 : ℕ) (clock : ℕ → ℕ) (idle : Task) (old_sp : ℕ) (s : Scheduler)
    → sched_logic kernel_l4 clock idle old_sp s
      ≡ some (
          pick kernel_l4 idle (record {
            curr = record s.curr { sp = old_sp };
            queue = s.queue ++ woken clock s.sleep 0;
            terminated = s.terminated;
            sleep = stay clock s.sleep 0;
          }))
unfolding sched_logic
sched_logic-wakes kernel_l4 clock idle old_sp s =
    rw (sched_logic, wake_at-wake_queue clock s.sleep s.queue) refl

-- When ready tasks are marked so and the idle task is there once, `sched_logic` does not panic,
-- it returns the stack pointer of the task that runs next, every task is there as often as
-- before except a running one that has terminated, and the two conditions hold again.
pub sched_logic-Switched :
    (kernel_l4 : ℕ) (clock : ℕ → ℕ) (idle : Task) (old_sp : ℕ) (s : Scheduler)
    → IsFit idle.id s
    → (out : ℕ × Scheduler × List Write) × (sched_logic kernel_l4 clock idle old_sp s ≡ some out)
      × Switched idle.id s out
sched_logic-Switched kernel_l4 clock idle old_sp s (all, once, never, safe) =
    let woke : Scheduler = record {
      curr = record s.curr { sp = old_sp };
      queue = s.queue ++ woken clock s.sleep 0;
      terminated = s.terminated;
      sleep = stay clock s.sleep 0;
    } in
    let fit : IsFit idle.id woke = (
      All-append IsReady s.queue (woken clock s.sleep 0) all (woken-IsReady clock s.sleep 0),
      omega (
        arith,
        tally-append idle.id s.queue (woken clock s.sleep 0),
        tally-stay clock idle.id s.sleep 0,
      ),
      omega (arith, tally-stay clock idle.id s.sleep 0),
      safe,
    ) in
    let (sp, same, fit') = pick-Switched kernel_l4 idle woke fit in
    (
      pick kernel_l4 idle woke,
      sched_logic-wakes kernel_l4 clock idle old_sp s,
      (
        sp,
        (λ k. omega (
          arith,
          same k,
          tally-append k s.queue (woken clock s.sleep 0),
          tally-stay clock k s.sleep 0,
        )),
        fit',
      ),
    )
