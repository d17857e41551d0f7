-- ===== src/Scheduling/Scheduler/Wake.antt =====
-- Which tasks `sched_logic` of kernel/src/scheduling/scheduler.rs wakes.
use maram_os.Base.{
  ℕ, ◌+◌, ◌≡◌, refl, some, List, [], ◌∷◌, ◌++◌, ap, sym, if◌then◌else◌, Bool-cases, inl, inr,
  length, append_assoc, append-nil, length-append,
}
use maram_os.Scheduling.Task.{Task, ready}
use maram_os.Scheduling.Scheduler.{remove_at, wakes, wake_queue, wake_at}

-- The tasks that sleep on, in order, and those that wake, the last first.
abbrev pub stay : (ℕ → ℕ) → List Task → ℕ → List Task
stay clock [] i = []
stay clock (t ∷ rest) i =
    let later = stay clock rest (i + 1) in if wakes (clock i) t then later else t ∷ later

abbrev pub woken : (ℕ → ℕ) → List Task → ℕ → List Task
woken clock [] i = []
woken clock (t ∷ rest) i =
    let later = woken clock rest (i + 1) in
    if wakes (clock i) t then later ++ record t { state = ready } ∷ [] else later

pub remove_at-append {ℓ} :
    {A : Type ℓ} (pre : List A) (x : A) (rest : List A)
    → remove_at (pre ++ x ∷ rest) (length pre) ≡ some (x, pre ++ rest)
unfolding remove_at
remove_at-append [] x rest = refl
remove_at-append (y ∷ pre) x rest = rw (remove_at, remove_at-append pre x rest) refl

wake_at_lem :
    (clock : ℕ → ℕ) (xs pre queue : List Task)
    → wake_at (wake_queue clock xs (length pre)) (pre ++ xs) queue
      ≡ some (pre ++ stay clock xs (length pre), queue ++ woken clock xs (length pre))
unfolding wake_at wake_queue
wake_at_lem clock [] pre queue = ap (λ q. some (pre ++ [], q)) (sym (append-nil queue))
wake_at_lem clock (t ∷ rest) pre queue =
    let len : length (pre ++ t ∷ []) ≡ length pre + 1 = length-append pre (t ∷ []) in
    let ih = wake_at_lem clock rest (pre ++ t ∷ []) queue in
    let ih' = rw (len, append_assoc pre (t ∷ []) rest) at ih in
    elim (Bool-cases (wakes (clock (length pre)) t)) [
      | inl e ↦
          rw
            (
              e,
              wake_at,
              ih',
              append_assoc pre (t ∷ []) (stay clock rest (length pre + 1)),
              remove_at-append pre t (stay clock rest (length pre + 1)),
              append_assoc queue (woken clock rest (length pre + 1))
                  (record t { state = ready } ∷ []),
            )
            refl
      | inr e ↦ rw (e, ih', append_assoc pre (t ∷ []) (stay clock rest (length pre + 1))) refl
    ]

-- The indices that the first loop collects are those of tasks, so the second loop does not panic.
pub wake_at-wake_queue :
    (clock : ℕ → ℕ) (sleep queue : List Task)
    → wake_at (wake_queue clock sleep 0) sleep queue
      ≡ some (stay clock sleep 0, queue ++ woken clock sleep 0)
wake_at-wake_queue clock sleep queue = wake_at_lem clock sleep [] queue
