-- ===== src/Scheduling/Task.antt =====
-- kernel/src/scheduling/task.rs and kernel/src/helpers/time.rs: tasks, their states, and the
-- frame that a new task's stack starts with. A page is known by its address and page count.
use maram_os.Base.{ℕ, ◌+◌, ◌*◌, ◌%◌, List, u64_mod, add64, sub64, [], ◌∷◌}

pub data Time : Type 0 where
  nanoseconds : ℕ → Time
  milliseconds : ℕ → Time
  seconds : ℕ → Time
  minutes : ℕ → Time
  hours : ℕ → Time
  days : ℕ → Time

unfoldable pub to_nanos : Time → ℕ
to_nanos (nanoseconds x) = x
to_nanos (milliseconds x) = (x * 1_000_000) % u64_mod
to_nanos (seconds x) = (x * 1_000_000_000) % u64_mod
to_nanos (minutes x) = (x * 60_000_000_000) % u64_mod
to_nanos (hours x) = (x * 3_600_000_000_000) % u64_mod
to_nanos (days x) = (x * 86_400_000_000_000) % u64_mod

-- `Time * rhs`.
unfoldable pub mul : Time → ℕ → Time
unfolding to_nanos
mul t rhs = nanoseconds ((to_nanos t * rhs) % u64_mod)

pub record PhysPage : Type 0 where
  pub address : ℕ
  pub count : ℕ

pub data TaskState : Type 0 where
  ready : TaskState
  wait : Time → TaskState
  terminate : ℕ → TaskState

-- The address space is known by its L4 table, a stack by its top.
pub data TaskType : Type 0 where
  kernel : TaskType
  user : (address_space syscall_stack priv_stack parent_id : ℕ) → TaskType

pub record Task : Type 0 where
  pub id : ℕ
  pub type_ : TaskType
  pub state : TaskState
  pub stack : PhysPage
  pub pages : List PhysPage
  pub entry : ℕ
  pub sp : ℕ

-- `next_id`, with the counter before and after.
abbrev pub next_id : ℕ → ℕ × ℕ
next_id counter = (counter, add64 counter 1)

abbrev pub page_size : ℕ
page_size = 4096

-- `write_stack`: the offset it returns, and the words it tries to write, at their offsets, in the order
-- of the writes.
unfoldable pub write_stack : PhysPage → ℕ → ℕ → ℕ → ℕ → ℕ × List (ℕ × ℕ)
write_stack stack entry rsp cs ds =
    let top = (stack.count * page_size) % u64_mod in
    (
      sub64 top (8 * 5 + 8 * 15),
      (sub64 top 8, ds)
          ∷ (sub64 top 16, rsp)
          ∷ (sub64 top 24, 0x202)
          ∷ (sub64 top 32, cs)
          ∷ (sub64 top 40, entry)
          ∷ [],
    )

-- `Task::manual`, which `Task::new_kernel` repeats with the selectors of the CPU.
unfoldable pub manual : ℕ → ℕ → PhysPage → ℕ → ℕ → Task × List (ℕ × ℕ)
unfolding write_stack
manual id entry stack cs ds =
    let rsp = add64 stack.address ((stack.count * page_size) % u64_mod) in
    let (sp, writes) = write_stack stack entry rsp cs ds in
    (
      record {
        id = id;
        type_ = kernel;
        state = ready;
        stack = stack;
        pages = [];
        entry = entry;
        sp = add64 sp stack.address;
      },
      writes,
    )

-- `Task::new_user` once its two stacks are there.
unfoldable pub new_user : ℕ → ℕ → ℕ → PhysPage → ℕ → ℕ → ℕ → ℕ → ℕ → ℕ → Task × List (ℕ × ℕ)
unfolding write_stack
new_user id entry rsp stack address_space syscall_stack priv_stack pid cs ds =
    let (sp, writes) = write_stack stack entry rsp cs ds in
    (
      record {
        id = id;
        type_ = user address_space syscall_stack priv_stack pid;
        state = ready;
        stack = stack;
        pages = [];
        entry = entry;
        sp = add64 sp stack.address;
      },
      writes,
    )
