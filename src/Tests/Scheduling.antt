-- ===== src/Tests/Scheduling.antt =====
-- Runs of the scheduler of kernel/src/scheduling.
use maram_os.Base.{ℕ, ◌+◌, ◌<◌, ◌≡◌, ◌⊎◌, refl, true, none, some, List, [], ◌∷◌, length, All, arith}
use maram_os.Scheduling.Task.{
  Task, TaskState, TaskType, PhysPage, ready, wait, terminate, kernel, user, nanoseconds, to_nanos,
}
use maram_os.Scheduling.Scheduler.{
  Scheduler, Write, cr3, rsp0, syscall_stack, enter, switch_to, remove_at, is_user, task_count,
  take_user_tasks, pick, sched_logic, wakes, place,
}
use maram_os.Scheduling.Scheduler.Wake.{stay}
use maram_os.Scheduling.Scheduler.Switch.{IsFit, Switched, tally, sched_logic-Switched}
use maram_os.Scheduling.Scheduler.Runs.{
  Run, here, tick, event, change, RunSpares, Run-IsFit, Run-runs,
}
use maram_os.Scheduling.Scheduler.Steal.{take_user_tasks-Taken}

abbrev page : PhysPage
page = record { address = 4096; count = 1 }

abbrev task : ℕ → TaskType → TaskState → Task
task id type_ state = record {
  id = id;
  type_ = type_;
  state = state;
  stack = page;
  pages = [];
  entry = 0;
  sp = 8;
}

abbrev idle : Task
idle = task 0 kernel ready

-- The idle task runs, one task is ready, and two sleep, one of them until 50 ns.
abbrev cpu : Scheduler
cpu = record {
  curr = idle;
  queue = task 1 (user 1 2 3 0) ready ∷ [];
  terminated = [];
  sleep = task 2 kernel (wait (nanoseconds 50)) ∷ task 3 kernel (wait (nanoseconds 500)) ∷ [];
}

abbrev now : ℕ → ℕ
now i = 100

wakes_one : stay now cpu.sleep 0 ≡ task 3 kernel (wait (nanoseconds 500)) ∷ []
unfolding wakes to_nanos
wakes_one = refl

sched_logic-Switched_example :
    (out : ℕ × Scheduler × List Write) × (sched_logic 9 now idle 7 cpu ≡ some out)
    × Switched 0 cpu out
sched_logic-Switched_example =
    sched_logic-Switched 9 now idle 7 cpu ((refl, tt), refl, refl, (λ e. refl))

take_user_tasks-Taken_example :
    ((task_count cpu.queue).1 < 1) × (take_user_tasks cpu 1 ≡ none)
    ⊎ ((tasks : List Task) × (rest : List Task) × (take_user_tasks cpu 1
          ≡ some (tasks, record cpu { queue = rest }))
        × (length tasks ≡ 1)
        × All (λ t. is_user t ≡ true) tasks
        × ((k : ℕ) → tally k tasks + tally k rest ≡ tally k cpu.queue))
take_user_tasks-Taken_example = take_user_tasks-Taken cpu 1

-- A task comes while the idle task runs behind one that is ready.
abbrev last_task : Task
last_task = task 5 kernel ready

abbrev busy : Scheduler
busy = record cpu { queue = task 1 (user 1 2 3 0) ready ∷ last_task ∷ [] }

abbrev ticked : Scheduler
ticked = elim (sched_logic 9 now idle 7 busy) [ none ↦ busy | some out ↦ out.1 ]

tick_runs : sched_logic 9 now idle 7 busy ≡ some (8, ticked, cr3 1 ∷ rsp0 3 ∷ syscall_stack 2 ∷ [])
unfolding sched_logic pick switch_to wakes to_nanos enter remove_at
tick_runs = refl

one_tick : Run 9 idle 1 busy ticked
one_tick = tick (here 9 idle busy) now 7 8 (cr3 1 ∷ rsp0 3 ∷ syscall_stack 2 ∷ []) tick_runs

Run-runs_example :
    (out : ℕ × Scheduler × List Write) × (sched_logic 9 now idle 3 ticked ≡ some out)
    × (out.0 ≡ 8)
    × (out.1.curr ≡ last_task)
Run-runs_example =
    Run-runs 9 idle busy ticked (task 1 (user 1 2 3 0) ready ∷ []) last_task [] now 3 refl one_tick

-- The running user task ends.
abbrev ended : Scheduler
ended = record ticked { curr = record ticked.curr { state = terminate 1 } }

ends : Run 9 idle 1 busy ended
ends = event one_tick (change idle ticked (terminate 1))

user_runs : ticked.curr.id ≡ 1
unfolding sched_logic pick switch_to wakes to_nanos enter remove_at place
user_runs = refl

ends_spares : RunSpares ends
unfolding ends one_tick
ends_spares = (tt, λ h. omega (arith, h, user_runs))

Run-IsFit_example : IsFit 0 ended
Run-IsFit_example = Run-IsFit ends ends_spares ((refl, (refl, tt)), refl, refl, (λ h. refl))
