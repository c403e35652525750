-- ===== src/Runtime.antt =====
-- src/runtime.rs: the runtime of one thread, from the thread that builds it. The executors' threads
-- are the modules of `Executor`; here they are what the calling thread sees of them: what comes
-- back from a blocking task, and the panics that they report.
pub mod Guard
pub mod Worker
pub mod Workers
pub mod Blocking
pub mod Reports
pub mod Sequence
pub mod Spawning
mod Tests
pub mod UnitTests
use min_async_runtime.Base.{
  ℕ, Bool, true, false, List, [], ◌∷◌, Option, none, some, if◌then◌else◌, Exit, returned, panicked,
}
use min_async_runtime.Base.Monad.{M, pure, ◌>>=◌, ◌>>◌, panic, modify, on, place}
use min_async_runtime.Mpsc.{Mpsc, sync_channel, Received, received, empty, hung_up}
use min_async_runtime.Mpsc
use min_async_runtime.Manager.{Manager, create, register_or_execute_non_blocking_task}
use min_async_runtime.Manager.System.{boot}
use min_async_runtime.Pool.{Pool, init}
use min_async_runtime.Spawner
use min_async_runtime.Spawner.{JoinHandle, Site}

pub record RuntimeBuilder : Type 0 where
  pub num_workers : ℕ

-- `Runtime`: how many worker threads it has, and the receiver of its handle.
pub record Runtime : Type 0 where
  pub handles : ℕ
  pub panic_rx : Mpsc (Unit {0})

-- The calling thread's cells: `RUNTIME_GUARD`, `RUNTIME`, `TASK_MANAGER` and `HOOCH_POOL`.
pub record Thread (J : Type 0) : Type 0 where
  pub guard : Bool
  pub runtime : Option Runtime
  pub manager : Option Manager
  pub pool : Option (Pool J)

-- `RuntimeBuilder::new`
abbrev pub new_builder : RuntimeBuilder
new_builder = record { num_workers = 1 }

-- `RuntimeBuilder::num_workers`
abbrev pub with_num_workers : ℕ → RuntimeBuilder → RuntimeBuilder
with_num_workers n builder = record builder { num_workers = n }

-- `TaskManager::get` on the thread's cell.
abbrev pub get_manager : Option Manager → Manager
get_manager none = create
get_manager (some m) = m

module _ {J : Type 0} where
  unfoldable pub set_runtime_guard : M (Thread J) (Unit {0})
  set_runtime_guard t = if t.guard then panicked t else returned tt (record t { guard = true })

  unfoldable pub exit_runtime_guard : M (Thread J) (Unit {0})
  exit_runtime_guard = modify (λ t. record t { guard = false })

  abbrev pub with_manager : Manager → Thread J → Thread J
  with_manager m t = record t { manager = some m }

  abbrev pub on_manager : {A : Type 0} → M Manager A → M (Thread J) A
  on_manager = on (λ t. get_manager t.manager) with_manager

  -- The closure of `get_or_init`: a pool of one thread, the manager, and its executors.
  abbrev pub start_runtime : ℕ → M (Thread J) (Unit {0})
  start_runtime n = do
    modify (λ t. record t { pool = init 1 t.pool })
    on_manager (boot n 0)
    modify (λ t. record t { runtime = some (record { handles = n; panic_rx = sync_channel 1 }) })

  abbrev pub get_or_start : ℕ → Option Runtime → M (Thread J) (Unit {0})
  get_or_start n (some rt) = pure tt
  get_or_start n none = start_runtime n

  -- `Runtime::handle`, `Handle::num_workers` and the others unwrap the thread's runtime.
  abbrev pub unwrap_runtime : Option Runtime → M (Thread J) Runtime
  unwrap_runtime none = panic
  unwrap_runtime (some rt) = pure rt

  unfoldable pub handle : M (Thread J) Runtime
  handle t = unwrap_runtime t.runtime t

  unfoldable pub build : RuntimeBuilder → M (Thread J) Runtime
  build builder = do set_runtime_guard; λ t. get_or_start builder.num_workers t.runtime t; handle

  unfoldable pub num_workers : M (Thread J) ℕ
  num_workers = do rt ← handle; pure rt.handles

  -- What `rx.recv` of `Runtime::run_blocking` gives: `none` is an error, when the future has been
  -- dropped before it sent.
  abbrev pub received_result : {T : Type 0} → Option T → M (Thread J) T
  received_result none = panic
  received_result (some result) = pure result

  -- `Runtime::run_blocking` for a task that is not aborted.
  abbrev pub run_blocking_inner : {T : Type 0} → ℕ → Option T → M (Thread J) T
  run_blocking_inner task sent = do
    on_manager (register_or_execute_non_blocking_task (λ t. false) task)
    received_result sent

  abbrev pub after_check : {T : Type 0} → T → Received (Unit {0}) → Runtime → M (Thread J) T
  after_check res (received u ch) rt = do
    modify (λ t. record t { runtime = some (record rt { panic_rx = ch }) })
    exit_runtime_guard
    panic
  after_check res empty rt = pure res
  after_check res hung_up rt = pure res

  -- `Handle::run_blocking`. What the executors do while it waits is two arguments: the result of
  -- the task, and the reports in the panic channel when it is read.
  unfoldable pub run_blocking : {T : Type 0} → ℕ → Option T → List (Unit {0}) → M (Thread J) T
  run_blocking task sent reports = do
    rt ← handle
    res ← run_blocking_inner task sent
    after_check res (Mpsc.try_recv (record rt.panic_rx { queue = reports })) rt

  -- `Drop for Runtime`
  unfoldable pub drop_runtime : M (Thread J) (Unit {0})
  drop_runtime = exit_runtime_guard

-- `Runtime::dispatch_job`
abbrev pub dispatch_job : {F T : Type 0} → ℕ → F → M (Site F) (JoinHandle T)
dispatch_job arc future = Spawner.spawn arc future

-- `Handle::spawn`, on the thread's runtime; the manager and the tasks are those of the site.
abbrev pub handle_spawn : {F T : Type 0} → Option Runtime → ℕ → F → M (Site F) (JoinHandle T)
handle_spawn none arc future = panic
handle_spawn (some rt) arc future = dispatch_job arc future
