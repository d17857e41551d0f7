-- ===== src/Scheduling/Scheduler/Runs.antt =====
-- What happens on one CPU between calls of `sched_logic` of kernel/src/scheduling/scheduler.rs:
-- tasks come, and the running task goes to sleep or ends. No other CPU takes tasks meanwhile.
use maram_os.Base.{
  ℕ, suc, ◌+◌, ◌≡◌, ◌≢◌, refl, some, List, [], ◌∷◌, ◌++◌, ◌∙◌, arith, ap, sym, subst, inl, inr, All,
  All-append, length, append_assoc, append-nil,
}
use maram_os.Scheduling.Task.{Task, TaskState}
use maram_os.Scheduling.Scheduler.{Scheduler, Write, add_task, switch_to, pick, sched_logic}
use maram_os.Scheduling.Scheduler.Wake.{stay, woken}
use maram_os.Scheduling.Scheduler.Switch.{
  tally, tally-append, IsReady, IsFit, State-cases, move-ready, move-wait, move-terminate,
  sched_logic-wakes, sched_logic-Switched,
}

-- `add_task`, the `extend` of an idle CPU with the tasks that it took, and a change of the state of
-- the task that runs, as by `kill_active_task`, whichever task this is.
pub data Event : Task → Scheduler → Scheduler → Type 0 where
  spawn :
      (idle : Task) (s : Scheduler) (t : Task)
      → IsReady t
      → t.id ≢ idle.id
      → Event idle s (add_task s t)
  receive :
      (idle : Task) (s : Scheduler) (ts : List Task)
      → All IsReady ts
      → tally idle.id ts ≡ 0
      → Event idle s (record s { queue = s.queue ++ ts })
  change :
      (idle : Task) (s : Scheduler) (state : TaskState)
      → Event idle s (record s { curr = record s.curr { state = state } })

-- The runs with a number of calls of `sched_logic`.
pub data Run : ℕ → Task → ℕ → Scheduler → Scheduler → Type 0 where
  here : (l4 : ℕ) (idle : Task) (s : Scheduler) → Run l4 idle 0 s s
  event :
      {l4 : ℕ} {idle : Task} {n : ℕ} {s t u : Scheduler}
      → Run l4 idle n s t
      → Event idle t u
      → Run l4 idle n s u
  tick :
      {l4 : ℕ} {idle : Task} {n : ℕ} {s t u : Scheduler}
      → Run l4 idle n s t
      → (clock : ℕ → ℕ) (old_sp sp : ℕ) (writes : List Write)
      → sched_logic l4 clock idle old_sp t ≡ some (sp, u, writes)
      → Run l4 idle (suc n) s u

-- No event of the run changes the state of the idle task while this runs.
abbrev pub EventSpares : {idle : Task} {s t : Scheduler} → Event idle s t → Type 0
EventSpares (spawn idle s t is_ready other) = Unit
EventSpares (receive idle s ts are_ready others) = Unit
EventSpares (change idle s state) = s.curr.id ≢ idle.id

abbrev pub RunSpares : {l4 : ℕ} {idle : Task} {n : ℕ} {s t : Scheduler} → Run l4 idle n s t → Type 0
RunSpares (here l4 idle s) = Unit
RunSpares (event run e) = RunSpares run × EventSpares e
RunSpares (tick run clock old_sp sp writes h) = RunSpares run

other_task : (k : ℕ) (t : Task) → t.id ≢ k → tally k (t ∷ []) ≡ 0
other_task k t h = ground arith

Event-IsFit :
    {idle : Task} {s t : Scheduler} (e : Event idle s t)
    → EventSpares e
    → IsFit idle.id s
    → IsFit idle.id t
unfolding add_task
Event-IsFit (spawn idle s t is_ready other) spares (all, once, never, safe) = (
  All-append IsReady s.queue (t ∷ []) all (is_ready, tt),
  omega (arith, tally-append idle.id s.queue (t ∷ []), other_task idle.id t other),
  never,
  safe,
)
Event-IsFit (receive idle s ts are_ready others) spares (all, once, never, safe) = (
  All-append IsReady s.queue ts all are_ready,
  omega (arith, tally-append idle.id s.queue ts),
  never,
  safe,
)
Event-IsFit (change idle s state) spares (all, once, never, safe) =
    (all, once, never, (λ h. absurd (spares h)))

-- From a scheduler that is fit, whatever tasks come and whatever the running tasks do, as long as no
-- event changes the state of the idle task while this runs: after any number of calls of
-- `sched_logic` the tasks in the queue are ready, the idle task runs or is in the queue, exactly once
-- there, is not among those that sleep, and is ready if it runs.
pub Run-IsFit :
    {l4 : ℕ} {idle : Task} {n : ℕ} {s t : Scheduler} (run : Run l4 idle n s t)
    → RunSpares run
    → IsFit idle.id s
    → IsFit idle.id t
Run-IsFit (here l4 idle s) spares fit = fit
Run-IsFit (event run e) (spares, last) fit = Event-IsFit e last (Run-IsFit run spares fit)
Run-IsFit {l4} {idle} (tick {t = t} {u = u} run clock old_sp sp writes h) spares fit =
    let switched = sched_logic-Switched l4 clock idle old_sp t (Run-IsFit run spares fit) in
    let same : switched.0 ≡ (sp, u, writes) = cc (switched.1, h) in
    subst (λ out. IsFit idle.id out.1) same switched.2.2

-- The task in front runs next, and the others stay in their order, in front of what comes.
switch_to-front :
    (l4 : ℕ) (s : Scheduler) (next : Task)
    → (more : List Task) × ((switch_to l4 s next).0 ≡ next.sp)
      × ((switch_to l4 s next).1.curr ≡ next)
      × ((switch_to l4 s next).1.queue ≡ s.queue ++ more)
unfolding switch_to
switch_to-front l4 s next =
    let s' : Scheduler = record s { curr = next } in
    elim (State-cases s.curr.state) [
      | inl e ↦
          let moved = move-ready s' s.curr e in
          (s.curr ∷ [], refl, ap (λ m. m.curr) moved, ap (λ m. m.queue) moved)
      | inr (inl (x, e)) ↦
          let moved = move-wait s' s.curr x e in
          ([], refl, ap (λ m. m.curr) moved, ap (λ m. m.queue) moved ∙ sym (append-nil s.queue))
      | inr (inr (x, e)) ↦
          let moved = move-terminate s' s.curr x e in
          ([], refl, ap (λ m. m.curr) moved, ap (λ m. m.queue) moved ∙ sym (append-nil s.queue))
    ]

sched_logic-front :
    (l4 : ℕ) (clock : ℕ → ℕ) (idle : Task) (old_sp : ℕ) (s : Scheduler) (x : Task)
    (rest : List Task)
    → s.queue ≡ x ∷ rest
    → (out : ℕ × Scheduler × List Write) × (more : List Task) × (sched_logic l4 clock idle old_sp s
        ≡ some out)
      × (out.0 ≡ x.sp)
      × (out.1.curr ≡ x)
      × (out.1.queue ≡ rest ++ more)
unfolding pick
sched_logic-front l4 clock idle old_sp s x rest e =
    let front : Scheduler = record {
      curr = record s.curr { sp = old_sp };
      queue = rest ++ woken clock s.sleep 0;
      terminated = s.terminated;
      sleep = stay clock s.sleep 0;
    } in
    let moved = switch_to-front l4 front x in
    (
      switch_to l4 front x,
      woken clock s.sleep 0 ++ moved.0,
      sched_logic-wakes l4 clock idle old_sp s
          ∙ ap
              (λ q. some (
                pick l4 idle (record {
                  curr = record s.curr { sp = old_sp };
                  queue = q ++ woken clock s.sleep 0;
                  terminated = s.terminated;
                  sleep = stay clock s.sleep 0;
                })))
              e,
      moved.1,
      moved.2,
      moved.3 ∙ append_assoc rest (woken clock s.sleep 0) moved.0,
    )

Event-queue :
    {idle : Task} {s t : Scheduler}
    → Event idle s t
    → (more : List Task) × (t.queue ≡ s.queue ++ more)
unfolding add_task
Event-queue (spawn idle s t is_ready other) = (t ∷ [], refl)
Event-queue (receive idle s ts are_ready others) = (ts, refl)
Event-queue (change idle s state) = ([], sym (append-nil s.queue))

-- After fewer calls than there are tasks in front of it, a task is still in the queue, with one
-- task less in front of it for each call.
Run-queue :
    {l4 : ℕ} {idle : Task} {n : ℕ} {s t : Scheduler} (k : ℕ) (pre : List Task) (x : Task)
    (post : List Task)
    → Run l4 idle n s t
    → s.queue ≡ pre ++ x ∷ post
    → length pre ≡ n + k
    → (front behind : List Task) × (t.queue ≡ front ++ x ∷ behind) × (length front ≡ k)
Run-queue k pre x post (here l4 idle s) e len = (pre, post, e, omega arith)
Run-queue k pre x post (event run ev) e len =
    let before = Run-queue k pre x post run e len in
    let more = Event-queue ev in
    (
      before.0,
      before.1 ++ more.0,
      more.1 ∙ ap (λ q. q ++ more.0) before.2 ∙ append_assoc before.0 (x ∷ before.1) more.0,
      before.3,
    )
Run-queue {l4} {idle} k pre x post (tick {t = t} {u = u} run clock old_sp sp writes h) e len =
    let before = Run-queue (suc k) pre x post run e (omega arith) in
    go before.0 before.1 before.2 before.3
  where
    go :
        (front behind : List Task)
        → t.queue ≡ front ++ x ∷ behind
        → length front ≡ suc k
        → (front' behind' : List Task) × (u.queue ≡ front' ++ x ∷ behind') × (length front' ≡ k)
    go [] behind q len = absurd (omega arith)
    go (y ∷ front) behind q len =
        let ran = sched_logic-front l4 clock idle old_sp t y (front ++ x ∷ behind) q in
        let same : ran.0 ≡ (sp, u, writes) = cc (ran.2, h) in
        (
          front,
          behind ++ ran.1,
          ap (λ out. out.1.queue) (sym same) ∙ ran.5 ∙ append_assoc front (x ∷ behind) ran.1,
          omega arith,
        )

-- On a CPU from which no other takes tasks, a ready task with some tasks in front of it in the
-- queue runs after as many calls of `sched_logic` as there are tasks in front of it and one more,
-- whatever comes in between, whatever the clock shows and whatever the running tasks do: this last
-- call does not panic, makes it the running task and returns its stack pointer.
pub Run-runs :
    (l4 : ℕ) (idle : Task) (s t : Scheduler) (pre : List Task) (x : Task) (post : List Task)
    (clock : ℕ → ℕ) (old_sp : ℕ)
    → s.queue ≡ pre ++ x ∷ post
    → Run l4 idle (length pre) s t
    → (out : ℕ × Scheduler × List Write) × (sched_logic l4 clock idle old_sp t ≡ some out)
      × (out.0 ≡ x.sp)
      × (out.1.curr ≡ x)
Run-runs l4 idle s t pre x post clock old_sp e run =
    let before = Run-queue 0 pre x post run e (omega arith) in
    go before.0 before.1 before.2 before.3
  where
    go :
        (front behind : List Task)
        → t.queue ≡ front ++ x ∷ behind
        → length front ≡ 0
        → (out : ℕ × Scheduler × List Write) × (sched_logic l4 clock idle old_sp t ≡ some out)
          × (out.0 ≡ x.sp)
          × (out.1.curr ≡ x)
    go [] behind q len =
        let ran = sched_logic-front l4 clock idle old_sp t x behind q in
        (ran.0, ran.2, ran.3, ran.4)
    go (y ∷ front) behind q len = absurd (omega arith)
