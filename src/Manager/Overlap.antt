-- ===== src/Manager/Overlap.antt =====
-- src/task/manager.rs called by several threads at once. The manager has no lock of its own: its
-- calls are taken apart into their uses of the two ring buffers and of the channels, and a step says
-- which thread goes on. One use of a ring buffer or of a channel is one step.
pub mod Alone
pub mod Places
pub mod Conserved
pub mod Kept
pub mod Runs
pub mod Stranded
mod Tests
use min_async_runtime.Base.{
  ℕ, ◌≡◌, ◌≢◌, Bool, true, false, List, [], ◌∷◌, ◌++◌, Option, none, some, get_elem?, set,
  if◌then◌else◌, returned, panicked,
}
use min_async_runtime.Base.Monad.{M, pure, ◌>>=◌, ◌>>◌}
use min_async_runtime.Mpsc.{Mpsc}
use min_async_runtime.Manager.{
  Manager, ExecutorTask, run_task, insert, push_executor, push_task, pop_task, pop_executor,
  send_to,
}
use min_async_runtime.Manager.System.{clear}

-- Where a thread stands in `register_or_execute_non_blocking_task` for a task, or in
-- `executor_ready` for an executor, with its local variables.
pub data Call : Type 0 where
  registers : ℕ → Call
  seeks : ℕ → Call
  stores : ℕ → Call
  is_ready : ℕ → Call
  checks : ℕ → ℕ → Call
  waits : ℕ → Call
  delivers : ℕ → ℕ → Call
  over : Call

-- After `waiting_executors.pop()`.
abbrev pub found_executor : ℕ → Option ℕ → Call
found_executor t none = stores t
found_executor t (some e) = delivers e t

-- After `waiting_tasks.pop()`.
abbrev pub found_task : ℕ → Option ℕ → Call
found_task e none = waits e
found_task e (some t) = checks e t

unfoldable pub call_step : (ℕ → Bool) → Call → M Manager Call
unfolding push_executor push_task pop_task pop_executor send_to
call_step aborted (registers t) = pure (if aborted t then over else seeks t)
call_step aborted (seeks t) = do next ← pop_executor; pure (found_executor t next)
call_step aborted (stores t) = do push_task t; pure over
call_step aborted (is_ready e) = do next ← pop_task; pure (found_task e next)
call_step aborted (checks e t) = pure (if aborted t then is_ready e else delivers e t)
call_step aborted (waits e) = do push_executor e; pure over
call_step aborted (delivers e t) = do send_to e t; pure over
call_step aborted over = pure over

-- The manager, the task that each executor polls, and the calls of the manager, those that are over
-- too.
pub record Threads : Type 0 where
  pub manager : Manager
  pub running : ℕ → Option ℕ
  pub calls : List Call

-- A spawn or a wake of a task calls the manager; a call goes on, or panics; an executor takes its
-- next message; an executor that has polled its task calls the manager.
pub data Turn (s : Threads) : Threads → Type 0 where
  hands : (t : ℕ) → Turn s (record s { calls = s.calls ++ registers t ∷ [] })
  goes_on :
      (aborted : ℕ → Bool) (i : ℕ) (c c' : Call) (m : Manager)
      → c ≢ over
      → get_elem? s.calls i ≡ some c
      → call_step aborted c s.manager ≡ returned c' m
      → Turn s (record s { manager = m; calls = set s.calls i c' })
  unwinds :
      (aborted : ℕ → Bool) (i : ℕ) (c : Call) (m : Manager)
      → get_elem? s.calls i ≡ some c
      → call_step aborted c s.manager ≡ panicked m
      → Turn s (record s { manager = m; calls = set s.calls i over })
  receives :
      (e t : ℕ) (ch : Mpsc ExecutorTask) (q : List ExecutorTask)
      → s.running e ≡ none
      → s.manager.executors e ≡ some ch
      → ch.queue ≡ run_task t ∷ q
      → Turn s (record {
        manager = record s.manager {
          executors = insert s.manager.executors e (record ch { queue = q });
        };
        running = insert s.running e t;
        calls = s.calls;
      })
  asks :
      (e t : ℕ)
      → s.running e ≡ some t
      → Turn s (record s { running = clear s.running e; calls = s.calls ++ is_ready e ∷ [] })

pub data Turns (s : Threads) : Threads → Type 0 where
  start : Turns s s
  then_turn : {t u : Threads} → Turns s t → Turn t u → Turns s u
