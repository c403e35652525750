-- ===== src/Executor/Lock.antt =====
-- src/executor.rs `forward_task` with other executors in between: the mutex round a task's future,
-- which one executor holds while it polls and the others wait for. No poll panics here, and so no
-- executor's thread ends.
use min_async_runtime.Base.{
  ℕ, ◌≡◌, Bool, true, false, List, ◌∷◌, Option, none, some, ◌==◌, if◌then◌else◌, returned,
}
use min_async_runtime.Mpsc.{Mpsc}
use min_async_runtime.Manager.{Manager, ExecutorTask, run_task, insert, executor_ready}
use min_async_runtime.Manager.System.{System, Step, submit, refuse, receive, finish, ends, clear}
use min_async_runtime.Manager.Moves.{finished_by}

-- Where an executor stands in a round of `run`.
pub data Point : Type 0 where
  receiving : Point
  wants polls polled : ℕ → Point

-- The manager and the executors' tasks, each executor's point, and who holds the mutex of a task.
pub record Locked : Type 0 where
  pub base : System
  pub point : ℕ → Point
  pub holder : ℕ → Option ℕ

abbrev pub move_to : (ℕ → Point) → ℕ → Point → ℕ → Point
move_to f e p j = if j == e then p else f j

-- The system after executor `e` has taken the message `run_task t`.
abbrev pub received_by : System → ℕ → ℕ → Mpsc ExecutorTask → List ExecutorTask → System
received_by s e t ch q = record {
  manager = record s.manager { executors = insert s.manager.executors e (record ch { queue = q }) };
  running = insert s.running e t;
  ended = s.ended;
}

-- A step of a thread that spawns or wakes.
abbrev pub is_handover : {s u : System} → Step s u → Bool
is_handover (submit aborted t m h) = true
is_handover (refuse aborted t m h) = true
is_handover (receive e t ch q free found head) = false
is_handover (finish aborted e t m held h) = false
is_handover (ends e t ch held found) = false

-- A spawn or a wake by any thread; an executor that takes its next message; one that gets the mutex
-- of its task; one whose poll has ended, and with it the guard; and one that asks for more.
pub data LockStep (s : Locked) : Locked → Type 0 where
  hands :
      (b : System) (step : Step s.base b)
      → is_handover step ≡ true
      → LockStep s (record s { base = b })
  takes :
      (e t : ℕ) (ch : Mpsc ExecutorTask) (q : List ExecutorTask)
      → s.base.running e ≡ none
      → s.base.manager.executors e ≡ some ch
      → ch.queue ≡ run_task t ∷ q
      → LockStep s
          (record s { base = received_by s.base e t ch q; point = move_to s.point e (wants t) })
  locks :
      (e t : ℕ)
      → s.point e ≡ wants t
      → s.holder t ≡ none
      → LockStep s (record s { point = move_to s.point e (polls t); holder = insert s.holder t e })
  unlocks :
      (e t : ℕ)
      → s.point e ≡ polls t
      → LockStep s (record s { point = move_to s.point e (polled t); holder = clear s.holder t })
  asks :
      (aborted : ℕ → Bool) (e t : ℕ) (m : Manager)
      → s.point e ≡ polled t
      → s.base.running e ≡ some t
      → executor_ready aborted e s.base.manager ≡ returned tt m
      → LockStep s (record s { base = finished_by s.base e m; point = move_to s.point e receiving })

pub data LockReach (s : Locked) : Locked → Type 0 where
  here : LockReach s s
  next : {t u : Locked} → LockReach s t → LockStep t u → LockReach s u

-- The task that an executor has taken.
abbrev pub task_at : Point → Option ℕ
task_at receiving = none
task_at (wants t) = some t
task_at (polls t) = some t
task_at (polled t) = some t

-- No executor has a task, and no mutex is held.
abbrev pub unlocked : System → Locked
unlocked s = record { base = s; point = λ _. receiving; holder = λ _. none }
