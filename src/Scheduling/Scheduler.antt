-- ===== src/Scheduling/Scheduler.antt =====
-- kernel/src/scheduling/scheduler.rs and the queues of kernel/src/scheduling/mod.rs. The clock
-- is the reading that the check of the sleeping task with a given index gets; `none` is a panic.
pub mod Wake
pub mod Switch
pub mod Steal
pub mod Queues
pub mod Runs
use maram_os.Base.{
  ℕ, zero, suc, ◌+◌, ◌-◌, ◌*◌, ◌/◌, ◌≤◌, ◌<◌, Bool, true, false, Option, none, some, List, [], ◌∷◌,
  ◌++◌, ltb, leb, ◌==◌, if◌then◌else◌, u64_mod,
}
use maram_os.Scheduling.Task.{
  Task, TaskState, TaskType, ready, wait, terminate, kernel, user, to_nanos,
}

pub record Scheduler : Type 0 where
  pub curr : Task
  pub queue : List Task
  pub terminated : List Task
  pub sleep : List Task

unfoldable pub new : Task → Scheduler
new idle = record { curr = idle; queue = []; terminated = []; sleep = [] }

unfoldable pub add_task : Scheduler → Task → Scheduler
add_task s t = record s { queue = s.queue ++ t ∷ [] }

unfoldable pub is_user : Task → Bool
is_user t = elim t.type_ [ kernel ↦ false | user a b c d ↦ true ]

-- `task_count`: the kernel and the user tasks that are ready.
unfoldable pub task_count : List Task → ℕ × ℕ
task_count [] = (0, 0)
task_count (t ∷ rest) =
    let (kernels, users) = task_count rest in
    elim t.type_ [ kernel ↦ (kernels + 1, users) | user a b c d ↦ (kernels, users + 1) ]

-- `remove(i)`: the element taken out, and the others.
unfoldable pub remove_at {ℓ} : {A : Type ℓ} → List A → ℕ → Option (A × List A)
remove_at [] i = none
remove_at (x ∷ xs) zero = some (x, xs)
remove_at (x ∷ xs) (suc i) = elim (remove_at xs i) [ none ↦ none | some (y, ys) ↦ some (y, x ∷ ys) ]

-- The first loop of `take_user_tasks`, from the task with index `i` on, with `found` indices
-- already pushed.
unfoldable pub pop_queue : List Task → ℕ → ℕ → ℕ → List ℕ
unfolding is_user
pop_queue [] i found count = []
pop_queue (t ∷ rest) i found count =
    let hit = pop_queue rest (i + 1) (found + 1) count in
    let miss = pop_queue rest (i + 1) found count in
    if leb count found then [] else if is_user t then i ∷ hit else miss

-- The second loop, over the indices from the last to the first: the tasks taken, and the rest.
unfoldable pub take_at : List ℕ → List Task → Option (List Task × List Task)
take_at [] queue = some ([], queue)
take_at (i ∷ is) queue = elim (take_at is queue) [
  | none ↦ none
  | some (tasks, rest) ↦ elim (remove_at rest i) [
    | none ↦ none
    | some (t, rest') ↦ some (tasks ++ t ∷ [], rest')
  ]
]

unfoldable pub take_user_tasks : Scheduler → ℕ → Option (List Task × Scheduler)
unfolding task_count pop_queue take_at
take_user_tasks s count =
    if ltb (task_count s.queue).1 count
    then none
    else elim (take_at (pop_queue s.queue 0 0 count) s.queue) [
      | none ↦ none
      | some (tasks, rest) ↦ some (tasks, record s { queue = rest })
    ]

-- Whether the first loop of `sched_logic` wakes a task, when the clock shows `now`.
unfoldable pub wakes : ℕ → Task → Bool
wakes now t = elim t.state [ ready ↦ true | terminate e ↦ true | wait x ↦ ltb (to_nanos x) now ]

unfoldable pub wake_queue : (ℕ → ℕ) → List Task → ℕ → List ℕ
wake_queue clock [] i = []
wake_queue clock (t ∷ rest) i =
    let later = wake_queue clock rest (i + 1) in if wakes (clock i) t then i ∷ later else later

-- The second loop, over the indices from the last to the first: the tasks that sleep, and those
-- that are ready.
unfoldable pub wake_at : List ℕ → List Task → List Task → Option (List Task × List Task)
wake_at [] sleep queue = some (sleep, queue)
wake_at (i ∷ is) sleep queue = elim (wake_at is sleep queue) [
  | none ↦ none
  | some (sleep', queue') ↦ elim (remove_at sleep' i) [
    | none ↦ none
    | some (t, rest) ↦ some (rest, queue' ++ record t { state = ready } ∷ [])
  ]
]

-- `move_to_queue` by the state of the task.
unfoldable pub place : Scheduler → Task → TaskState → Scheduler
place s t ready = record s { queue = s.queue ++ t ∷ [] }
place s t (terminate e) = record s { terminated = s.terminated ++ t ∷ [] }
place s t (wait x) = record s { sleep = s.sleep ++ t ∷ [] }

unfoldable pub move_to_queue : Scheduler → Task → Scheduler
move_to_queue s t = place s t t.state

-- What `sched_logic` writes to the registers of the CPU.
pub data Write : Type 0 where
  cr3 : ℕ → Write
  rsp0 : ℕ → Write
  syscall_stack : ℕ → Write

unfoldable pub enter : ℕ → TaskType → List Write
enter kernel_l4 kernel = cr3 kernel_l4 ∷ []
enter kernel_l4 (user space syscall priv parent) =
    cr3 space ∷ rsp0 priv ∷ syscall_stack syscall ∷ []

-- The end of `sched_logic`, with the next task.
unfoldable pub switch_to : ℕ → Scheduler → Task → ℕ × Scheduler × List Write
unfolding move_to_queue
switch_to kernel_l4 s next =
    let s' = move_to_queue (record s { curr = next }) s.curr in
    (next.sp, record s' { terminated = [] }, enter kernel_l4 next.type_)

-- What follows when no task is ready, by the state of the running one.
unfoldable pub fall_back : ℕ → Task → Scheduler → TaskState → ℕ × Scheduler × List Write
unfolding switch_to
fall_back kernel_l4 idle s ready = (s.curr.sp, s, [])
fall_back kernel_l4 idle s (wait x) = switch_to kernel_l4 s idle
fall_back kernel_l4 idle s (terminate e) = switch_to kernel_l4 s idle

-- `sched_logic` once the tasks are awake.
unfoldable pub pick : ℕ → Task → Scheduler → ℕ × Scheduler × List Write
pick kernel_l4 idle s = elim s.queue [
  | next ∷ rest ↦ switch_to kernel_l4 (record s { queue = rest }) next
  | [] ↦ fall_back kernel_l4 idle s s.curr.state
]

unfoldable pub sched_logic :
    ℕ → (ℕ → ℕ) → Task → ℕ → Scheduler → Option (ℕ × Scheduler × List Write)
unfolding wake_queue wake_at
sched_logic kernel_l4 clock idle old_sp s =
    elim (wake_at (wake_queue clock s.sleep 0) s.sleep s.queue) [
      | none ↦ none
      | some (sleep, queue) ↦ some (
          pick kernel_l4 idle
            (record s { curr = record s.curr { sp = old_sp }; queue = queue; sleep = sleep }))
    ]
