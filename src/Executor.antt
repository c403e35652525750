-- ===== src/Executor.antt =====
-- src/executor.rs and src/task/task.rs: tasks, their wakers, and the loop that polls them.
-- A future is any type with a `poll`, which wakes some tasks and then is pending, is ready, or
-- panics. One poll is one step: it runs under the lock of the task's future.
pub mod Forward
pub mod Serve
pub mod Progress
pub mod Thread
pub mod Lock
pub mod Exclusion
pub mod Unblocked
pub mod Drive
pub mod Waker
mod Tests
use min_async_runtime.Base.{
  ℕ, zero, suc, Bool, true, false, List, [], ◌∷◌, ◌++◌, Option, none, some, ◌==◌, if◌then◌else◌,
  add_usize, Exit, returned, panicked, blocked, exhausted,
}
use min_async_runtime.Base.Monad.{M, pure, ◌>>=◌, ◌>>◌, panic, get, modify, catch_unwind, on}
use min_async_runtime.Mpsc.{
  Mpsc, Sent, sent, full, disconnected, Received, received, empty, hung_up,
}
use min_async_runtime.Mpsc
use min_async_runtime.Manager.{
  Manager, ExecutorTask, run_task, finished, insert, executor_ready,
  register_or_execute_non_blocking_task,
}

-- What `Future::poll` comes to; a pending future has its next state.
pub data Polled (F : Type 0) : Type 0 where
  pending : F → Polled F
  ready : Polled F
  panics : Polled F

-- The tasks that a poll wakes, in order, and what it comes to.
pub record Poll (F : Type 0) : Type 0 where
  pub wakes : List ℕ
  pub polled : Polled F

-- `Task`; `poisoned` is the state of the mutex round the future.
pub record Task (F : Type 0) : Type 0 where
  pub future : Option F
  pub poisoned : Bool
  pub task_tag : ℕ
  pub abort : Bool

-- The tasks by their `Arc`, the manager, and the channel on which panics are told.
pub record Host (F : Type 0) : Type 0 where
  pub tasks : ℕ → Task F
  pub manager : Manager
  pub panic_tx : Mpsc (Unit {0})

-- `Task::generate_tag`: the tag, and the counter after it.
unfoldable pub generate_tag : ℕ → ℕ × ℕ
generate_tag counter = (counter, add_usize counter 1)

-- The executor is dropped, with the receiver of its queue and the tasks in it.
abbrev pub closed : ℕ → Option (Mpsc ExecutorTask) → Manager → Manager
closed id none m = m
closed id (some ch) m = record m {
  executors = insert m.executors id (record ch { queue = []; receiver = false });
}

module _ {F : Type 0} where
  abbrev pub has_aborted : Host F → ℕ → Bool
  has_aborted h t = (h.tasks t).abort

  abbrev pub update_task : ℕ → (Task F → Task F) → Host F → Host F
  update_task t f h = record h { tasks = λ j. if j == t then f (h.tasks j) else h.tasks j }

  abbrev pub with_manager : Manager → Host F → Host F
  with_manager m h = record h { manager = m }

  -- `wake` and `wake_by_ref`
  unfoldable pub wake : ℕ → M (Host F) (Unit {0})
  wake t h =
      on (λ h'. h'.manager) with_manager (register_or_execute_non_blocking_task (has_aborted h) t) h

  unfoldable pub wake_all : List ℕ → M (Host F) (Unit {0})
  wake_all [] = pure tt
  wake_all (t ∷ ts) = do wake t; wake_all ts

  abbrev pub set_future : ℕ → Option F → M (Host F) (Unit {0})
  set_future t fut = modify (update_task t (λ task. record task { future = fut }))

  abbrev pub poison : ℕ → M (Host F) (Unit {0})
  poison t = modify (update_task t (λ task. record task { poisoned = true }))

  -- What the closure does with the result of the poll.
  abbrev pub conclude : ℕ → Polled F → M (Host F) (Unit {0})
  conclude t (pending f) = set_future t (some f)
  conclude t ready = set_future t none
  conclude t panics = panic

  -- `self.panic_tx.send(()).unwrap()`
  unfoldable pub send_panic : M (Host F) (Unit {0})
  send_panic h = elim (Mpsc.send h.panic_tx tt) [
    | sent ch ↦ returned tt (record h { panic_tx = ch })
    | full ↦ blocked
    | disconnected ↦ panicked h
  ]

  -- After `catch_unwind`: a panic has dropped the guard while unwinding, which poisons the mutex.
  abbrev pub report : ℕ → Bool → M (Host F) (Unit {0})
  report t true = pure tt
  report t false = do poison t; send_panic

  abbrev pub take_message : ℕ → Host F → Received ExecutorTask → Exit (Host F) (Option ExecutorTask)
  take_message id h (received msg ch) =
      returned (some msg)
        (with_manager (record h.manager { executors = insert h.manager.executors id ch }) h)
  take_message id h empty = blocked
  take_message id h hung_up = returned none h

  abbrev pub receive_from :
      ℕ → Host F → Option (Mpsc ExecutorTask) → Exit (Host F) (Option ExecutorTask)
  receive_from id h none = blocked
  receive_from id h (some ch) = take_message id h (Mpsc.try_recv ch)

  -- `self.ready_queue.recv()`; an error is `none`.
  unfoldable pub recv : ℕ → M (Host F) (Option ExecutorTask)
  recv id h = receive_from id h (h.manager.executors id)

  unfoldable pub ready_again : ℕ → M (Host F) (Unit {0})
  ready_again id h = on (λ h'. h'.manager) with_manager (executor_ready (has_aborted h) id) h

  -- `let _ = panic_tx_clone.send(())`
  abbrev pub told : Host F → Sent (Unit {0}) → Exit (Host F) (Unit {0})
  told h (sent ch) = returned tt (record h { panic_tx = ch })
  told h full = blocked
  told h disconnected = returned tt h

  abbrev pub tell_unless : Bool → M (Host F) (Unit {0})
  tell_unless true = pure tt
  tell_unless false = λ h. told h (Mpsc.send h.panic_tx tt)

  abbrev pub drop_executor : ℕ → M (Host F) (Unit {0})
  drop_executor id = modify (λ h. with_manager (closed id (h.manager.executors id) h.manager) h)

  module _ (poll : F → Poll F) where
    abbrev pub poll_future : ℕ → F → M (Host F) (Unit {0})
    poll_future t fut = do wake_all (poll fut).wakes; conclude t (poll fut).polled

    abbrev pub forward_unlocked : ℕ → Option F → M (Host F) (Unit {0})
    forward_unlocked t none = pure tt
    forward_unlocked t (some fut) = do fine ← catch_unwind (poll_future t fut); report t fine

    unfoldable pub forward_task : ℕ → M (Host F) (Unit {0})
    forward_task t h =
        if (h.tasks t).poisoned then panicked h else forward_unlocked t (h.tasks t).future h

    -- One round of the loop of `run`: whether the loop goes on.
    abbrev pub handle : ℕ → Option ExecutorTask → M (Host F) Bool
    handle id none = pure false
    handle id (some finished) = pure false
    handle id (some (run_task t)) = do forward_task t; ready_again id; pure true

    unfoldable pub serve : ℕ → M (Host F) Bool
    serve id = recv id >>= handle id

    -- `run`, for at most `fuel` messages.
    unfoldable pub run : ℕ → ℕ → M (Host F) (Unit {0})
    run zero id h = exhausted
    run (suc fuel) id h =
        (do more ← serve id; let again = run fuel id; if more then again else pure tt) h

    -- The thread that `RuntimeBuilder::build` starts for an executor, once it has its cells: a
    -- panic that leaves `run` is told, and the thread is over.
    unfoldable pub executor_thread : ℕ → ℕ → M (Host F) (Unit {0})
    executor_thread fuel id = do
      fine ← catch_unwind (run fuel id)
      tell_unless fine
      drop_executor id
