-- ===== src/Manager/System.antt =====
-- The executors at work (src/executor.rs `run`, without the polling) and the threads that hand them
-- tasks, as steps on the manager of src/task/manager.rs. A call of the manager is one step: calls do
-- not overlap here. `Manager.Overlap` takes them apart.
use min_async_runtime.Base.{
  ℕ, zero, suc, ◌+◌, ◌≤◌, ◌<◌, ◌≡◌, ◌⊎◌, Bool, true, false, List, [], ◌∷◌, Option, none, some,
  length, count, ◌==◌, if◌then◌else◌, returned, panicked,
}
use min_async_runtime.Base.Monad.{M, pure, ◌>>◌}
use min_async_runtime.Mpsc.{Mpsc, sync_channel}
use min_async_runtime.Manager.{
  Manager, ExecutorTask, run_task, finished, insert, register_executor, executor_ready,
  register_or_execute_non_blocking_task,
}
use min_async_runtime.Manager.Board.{Board, Shows}

-- The manager, the task that each executor is polling, and whether the executor's thread is over.
pub record System : Type 0 where
  pub manager : Manager
  pub running : ℕ → Option ℕ
  pub ended : ℕ → Bool

abbrev pub max_queued_tasks : ℕ
max_queued_tasks = 10_000

abbrev pub clear {ℓ} : {A : Type ℓ} → (ℕ → Option A) → ℕ → ℕ → Option A
clear f k j = if j == k then none else f j

abbrev pub end_of : (ℕ → Bool) → ℕ → ℕ → Bool
end_of f k j = if j == k then true else f j

-- What is left of an executor's channel when the executor is dropped.
abbrev pub hang_up : Mpsc ExecutorTask → Mpsc ExecutorTask
hang_up ch = record ch { queue = []; receiver = false }

-- A spawn or a wake from any thread, which may end in a panic; an executor that takes its next
-- message; an executor that has polled its task and is ready for another; and an executor whose
-- thread ends while it has a task, since a panic has left `run`.
pub data Step (s : System) : System → Type 0 where
  submit :
      (aborted : ℕ → Bool) (t : ℕ) (m : Manager)
      → register_or_execute_non_blocking_task aborted t s.manager ≡ returned tt m
      → Step s (record s { manager = m })
  refuse :
      (aborted : ℕ → Bool) (t : ℕ) (m : Manager)
      → register_or_execute_non_blocking_task aborted t s.manager ≡ panicked m
      → Step s (record s { manager = m })
  receive :
      (e t : ℕ) (ch : Mpsc ExecutorTask) (q : List ExecutorTask)
      → s.running e ≡ none
      → s.manager.executors e ≡ some ch
      → ch.queue ≡ run_task t ∷ q
      → Step s (record {
        manager = record s.manager {
          executors = insert s.manager.executors e (record ch { queue = q });
        };
        running = insert s.running e t;
        ended = s.ended;
      })
  finish :
      (aborted : ℕ → Bool) (e t : ℕ) (m : Manager)
      → s.running e ≡ some t
      → executor_ready aborted e s.manager ≡ returned tt m
      → Step s (record { manager = m; running = clear s.running e; ended = s.ended })
  ends :
      (e t : ℕ) (ch : Mpsc ExecutorTask)
      → s.running e ≡ some t
      → s.manager.executors e ≡ some ch
      → Step s (record {
        manager = record s.manager { executors = insert s.manager.executors e (hang_up ch) };
        running = clear s.running e;
        ended = end_of s.ended e;
      })

pub data Reach (s : System) : System → Type 0 where
  here : Reach s s
  next : {t u : System} → Reach s t → Step t u → Reach s u

-- 1 while the executor polls a task.
abbrev pub busy : Option ℕ → ℕ
busy none = 0
busy (some t) = 1

-- Executor `e` has a live channel, and is in one place: idle, about to receive, or polling.
abbrev pub Seat : (ℕ → Option (Mpsc ExecutorTask)) → List ℕ → (ℕ → Option ℕ) → ℕ → Type 0
Seat mail idle running e =
    (ch : Mpsc ExecutorTask) × (mail e ≡ some ch)
    × (ch.receiver ≡ true)
    × (ch.bound ≡ max_queued_tasks)
    × (count e idle + length ch.queue + busy (running e) ≡ 1)

-- No executor is told to stop: all messages are tasks.
abbrev pub all_tasks : List ExecutorTask → Bool
all_tasks [] = true
all_tasks (run_task t ∷ q) = all_tasks q
all_tasks (finished ∷ q) = false

abbrev pub AllTasks : (ℕ → Option (Mpsc ExecutorTask)) → Type 0
AllTasks mail = (e : ℕ) (ch : Mpsc ExecutorTask) → mail e ≡ some ch → all_tasks ch.queue ≡ true

-- Executor `e` has no channel that takes messages, is not idle, and polls nothing.
abbrev pub Gone : (ℕ → Option (Mpsc ExecutorTask)) → List ℕ → (ℕ → Option ℕ) → ℕ → Type 0
Gone mail idle running e =
    (count e idle ≡ 0)
    × (running e ≡ none)
    × ((ch : Mpsc ExecutorTask) → mail e ≡ some ch → (ch.queue ≡ []) × (ch.receiver ≡ false))

-- `n` executors, numbered from 0, over rings of `cap` places.
pub record Inv (n cap : ℕ) (s : System) (b : Board) : Type 0 where
  pub shown : Shows s.manager cap b
  pub seated : (e : ℕ) → e < n → s.ended e ≡ false → Seat b.mail b.idle s.running e
  pub gone : (e : ℕ) → s.ended e ≡ true → Gone b.mail b.idle s.running e
  pub others : (e : ℕ) → n ≤ e → (count e b.idle ≡ 0) × (s.running e ≡ none) × (b.mail e ≡ none)
  pub no_waste : (b.idle ≡ []) ⊎ (b.tasks ≡ [])
  pub no_stop : AllTasks b.mail

-- The loop of `RuntimeBuilder::build` that registers the executors `i`, `i + 1`, …, `k` of them.
unfoldable pub boot : ℕ → ℕ → M Manager (Unit {0})
boot zero i = pure tt
boot (suc k) i = do register_executor i (sync_channel max_queued_tasks); boot k (i + 1)
