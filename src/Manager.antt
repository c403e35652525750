-- ===== src/Manager.antt =====
-- src/task/manager.rs: `TaskManager`, which hands tasks to executors. A task stands for its `Arc`,
-- by a number; the abort flags are an argument, read when `has_aborted` is called.
pub mod Board
pub mod Refine
pub mod System
pub mod Seats
pub mod Moves
pub mod Invariant
pub mod Boot
pub mod Accounts
pub mod Once
pub mod Delivery
pub mod Work
pub mod Drain
pub mod Overlap
mod Tests
use min_async_runtime.Base.{
  ℕ, zero, suc, ◌*◌, Bool, Option, none, some, ◌==◌, if◌then◌else◌, returned, panicked, blocked,
  exhausted,
}
use min_async_runtime.Base.Monad.{M, pure, ◌>>=◌, ◌>>◌, panic, modify, access, on}
use min_async_runtime.Mpsc.{Mpsc, Sent, sent, full, disconnected}
use min_async_runtime.Mpsc
use min_async_runtime.Ring.{Ring, PushStatus, pushed, buffer_full}
use min_async_runtime.Ring

-- `executor::ExecutorTask`
pub data ExecutorTask : Type 0 where
  run_task : ℕ → ExecutorTask
  finished : ExecutorTask

pub record Manager : Type 0 where
  pub waiting_tasks : Ring ℕ
  pub waiting_executors : Ring ℕ
  pub executors : ℕ → Option (Mpsc ExecutorTask)

abbrev pub max_waiting : ℕ
max_waiting = 128 * 1000

-- The manager that `TaskManager::get` makes on its first call.
unfoldable pub create : Manager
create = record {
  waiting_tasks = Ring.new max_waiting;
  waiting_executors = Ring.new max_waiting;
  executors = λ _. none;
}

-- `DashMap::insert`
abbrev pub insert {ℓ} : {A : Type ℓ} → (ℕ → Option A) → ℕ → A → ℕ → Option A
insert f k v j = if j == k then some v else f j

-- `Result::unwrap` of a push.
abbrev pub unwrap_push : PushStatus → M Manager (Unit {0})
unwrap_push pushed = pure tt
unwrap_push buffer_full = panic

abbrev pub with_tasks : Ring ℕ → Manager → Manager
with_tasks r m = record m { waiting_tasks = r }

abbrev pub with_executors : Ring ℕ → Manager → Manager
with_executors r m = record m { waiting_executors = r }

pub push_executor : ℕ → M Manager (Unit {0})
push_executor id = do
  s ← on (λ m. m.waiting_executors) with_executors (access (λ r. Ring.push r id))
  unwrap_push s

pub push_task : ℕ → M Manager (Unit {0})
push_task t = do
  s ← on (λ m. m.waiting_tasks) with_tasks (access (λ r. Ring.push r t))
  unwrap_push s

pub pop_task : M Manager (Option ℕ)
pop_task = on (λ m. m.waiting_tasks) with_tasks (access Ring.pop)

pub pop_executor : M Manager (Option ℕ)
pop_executor = on (λ m. m.waiting_executors) with_executors (access Ring.pop)

-- `self.executors.get(&id).unwrap()`, then `sender.send(ExecutorTask::Task(task)).unwrap()`
pub send_to : ℕ → ℕ → M Manager (Unit {0})
send_to id task m = elim (m.executors id) [
  | none ↦ panicked m
  | some ch ↦ elim (Mpsc.send ch (run_task task)) [
    | sent ch' ↦ returned tt (record m { executors = insert m.executors id ch' })
    | full ↦ blocked
    | disconnected ↦ panicked m
  ]
]

pub register_executor : ℕ → Mpsc ExecutorTask → M Manager (Unit {0})
unfolding push_executor
register_executor id sender = do
  modify (λ m. record m { executors = insert m.executors id sender })
  push_executor id

-- The `while let` loop of `executor_ready` with what follows it, on fuel.
pub ready_loop : ℕ → (ℕ → Bool) → ℕ → M Manager (Unit {0})
unfolding push_executor pop_task send_to
ready_loop zero aborted id m = exhausted
ready_loop (suc fuel) aborted id m =
    (do
      next ← pop_task
      let again = ready_loop fuel aborted id
      elim next [
        | none ↦ push_executor id
        | some task ↦ if aborted task then again else send_to id task
      ])
      m

-- One round for each waiting task, and one to find that none is left.
unfoldable pub executor_ready : (ℕ → Bool) → ℕ → M Manager (Unit {0})
unfolding ready_loop
executor_ready aborted id m = ready_loop (suc (Ring.len m.waiting_tasks)) aborted id m

pub register_or_execute_non_blocking_task : (ℕ → Bool) → ℕ → M Manager (Unit {0})
unfolding push_task pop_executor send_to
register_or_execute_non_blocking_task aborted task =
    if aborted task
    then pure tt
    else do next ← pop_executor; elim next [ none ↦ push_task task | some exec ↦ send_to exec task ]
