-- ===== src/Manager/Board.antt =====
-- What the users of src/task/manager.rs are promised: a queue of waiting tasks, a queue of idle
-- executors, and a mailbox for each executor.
use min_async_runtime.Base.{
  ℕ, ◌<◌, ◌≡◌, Bool, true, List, [], ◌∷◌, ◌++◌, Option, none, some, length, if◌then◌else◌,
}
use min_async_runtime.Mpsc.{Mpsc}
use min_async_runtime.Manager.{Manager, ExecutorTask, run_task, insert}
use min_async_runtime.Ring.Refine.{Holds}

pub record Board : Type 0 where
  pub tasks : List ℕ
  pub idle : List ℕ
  pub mail : ℕ → Option (Mpsc ExecutorTask)

-- The oldest waiting task that has not been aborted, and those behind it.
unfoldable pub first_live : (ℕ → Bool) → List ℕ → Option (ℕ × List ℕ)
first_live aborted [] = none
first_live aborted (t ∷ ts) = if aborted t then first_live aborted ts else some (t, ts)

-- A task at the end of an executor's mailbox.
abbrev pub post : (ℕ → Option (Mpsc ExecutorTask)) → ℕ → ℕ → ℕ → Option (Mpsc ExecutorTask)
post mail id t = elim (mail id) [
  | none ↦ mail
  | some ch ↦ insert mail id (record ch { queue = ch.queue ++ run_task t ∷ [] })
]

-- An executor gets a task, or is idle and no task waits.
abbrev pub settle : ℕ → Option (ℕ × List ℕ) → List ℕ → (ℕ → Option (Mpsc ExecutorTask)) → Board
settle id none idle mail = record { tasks = []; idle = idle ++ id ∷ []; mail = mail }
settle id (some (t, rest)) idle mail = record { tasks = rest; idle = idle; mail = post mail id t }

-- An executor asks for work: the oldest live task is its own.
abbrev pub after_ready : (ℕ → Bool) → ℕ → Board → Board
after_ready aborted id b = settle id (first_live aborted b.tasks) b.idle b.mail

-- A task goes to the executor that has been idle the longest, or waits behind the others.
abbrev pub assign : ℕ → Board → Board
assign t b = elim b.idle [
  | [] ↦ record b { tasks = b.tasks ++ t ∷ [] }
  | e ∷ es ↦ record b { idle = es; mail = post b.mail e t }
]

abbrev pub after_submit : (ℕ → Bool) → ℕ → Board → Board
after_submit aborted t b = if aborted t then b else assign t b

-- The executor's receiver is alive and its channel has room.
abbrev pub CanReceive : (ℕ → Option (Mpsc ExecutorTask)) → ℕ → Type 0
CanReceive mail id =
    (ch : Mpsc ExecutorTask) × (mail id ≡ some ch)
    × (ch.receiver ≡ true)
    × (length ch.queue < ch.bound)

-- `m` keeps the two queues of `b` in rings of `cap` places.
pub record Shows (m : Manager) (cap : ℕ) (b : Board) : Type 0 where
  pub tasks_held : Holds m.waiting_tasks cap b.tasks
  pub idle_held : Holds m.waiting_executors cap b.idle
  pub mailed : m.executors ≡ b.mail
