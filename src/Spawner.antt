-- ===== src/Spawner.antt =====
-- src/spawner.rs: `Spawner::spawn`, the future that it wraps round the caller's, and `JoinHandle`.
-- The value stands for its box here; `Spawner.Boxed` has the box and its `downcast`.
pub mod Join
pub mod Launch
pub mod Boxed
mod Tests
use min_async_runtime.Base.{
  ℕ, Bool, true, false, List, Option, none, some, ◌==◌, if◌then◌else◌, returned, panicked,
}
use min_async_runtime.Base.Monad.{M, pure, ◌>>=◌, ◌>>◌, get, modify, on}
use min_async_runtime.Base.Future.{Poll, pending, ready, Result, ok, err}
use min_async_runtime.Reactor.{Reactor}
use min_async_runtime.Channel.{Channel, RecvError, bounded_channel, poll_recv, drop}
use min_async_runtime.Channel
use min_async_runtime.Executor.{Host, Task, update_task, wake}
use min_async_runtime.Executor

-- What a poll of the caller's future comes to.
pub data Inner (F T : Type 0) : Type 0 where
  waits : F → Inner F T
  yields : T → Inner F T
  unwinds : Inner F T

-- `recv_fut`: not made yet, waiting in `recv`, or finished.
pub data RecvFuture : Type 0 where
  unset receiving completed : RecvFuture

pub data JoinHandleError : Type 0 where
  join_error : JoinHandleError

-- The handle, with the channel that `rx` reads.
pub record JoinHandle (T : Type 0) : Type 0 where
  pub rx : Channel T
  pub has_awaited : Bool
  pub recv_fut : RecvFuture
  pub task : ℕ

module _ {T : Type 0} where
  abbrev pub with_rx : Channel T → JoinHandle T → JoinHandle T
  with_rx c jh = record jh { rx = c }

  -- The rest of the wrapped future, once the caller's has yielded: the value is sent, whatever
  -- becomes of it, and the sender is dropped with the future.
  unfoldable pub finish : T → M (Channel T) (Unit {0})
  finish res = do Channel.send res; modify drop

  -- The wrapped future, by what the poll of the caller's future comes to: a future left to poll, or
  -- none. A panic drops the sender as it unwinds.
  unfoldable pub wrapped_future : {F : Type 0} → Inner F T → M (Channel T) (Option F)
  wrapped_future (waits f) = pure (some f)
  wrapped_future (yields res) = do finish res; pure none
  wrapped_future unwinds = λ c. panicked (drop c)

  -- The match on the result of `recv_fut`.
  abbrev pub joined :
      JoinHandle T
      → Poll (Result T RecvError) × Channel T
      → Poll (Result T JoinHandleError) × JoinHandle T
  joined jh (ready (ok val), c) = (ready (ok val), record jh { rx = c; recv_fut = completed })
  joined jh (ready (err e), c) =
      (ready (err join_error), record jh { rx = c; recv_fut = completed })
  joined jh (pending, c) = (pending, record jh { rx = c; recv_fut = receiving })

  -- A poll of `recv_fut`; an `async` block that has finished panics when it is polled.
  abbrev pub poll_recv_fut : RecvFuture → ℕ → M (JoinHandle T) (Poll (Result T JoinHandleError))
  poll_recv_fut completed waker jh = panicked jh
  poll_recv_fut receiving waker jh =
      let (p, jh') = joined jh (poll_recv waker jh.rx) in returned p jh'
  poll_recv_fut unset waker jh = let (p, jh') = joined jh (poll_recv waker jh.rx) in returned p jh'

  -- `Future for JoinHandle`
  unfoldable pub poll : ℕ → M (JoinHandle T) (Poll (Result T JoinHandleError))
  poll waker jh = poll_recv_fut jh.recv_fut waker (record jh { has_awaited = true })

-- The executors' side, the reactor, and the counters of the two kinds of tags.
pub record Site (F : Type 0) : Type 0 where
  pub host : Host F
  pub reactor : Reactor
  pub reactor_tag_num : ℕ
  pub task_tag_num : ℕ

module _ {F : Type 0} where
  abbrev pub with_host : Host F → Site F → Site F
  with_host h s = record s { host = h }

  -- The new task, in the new `Arc`.
  abbrev pub place_task : ℕ → Task F → Host F → Host F
  place_task arc task h = record h { tasks = λ j. if j == arc then task else h.tasks j }

  abbrev pub new_task : ℕ → F → Task F
  new_task tag future = record {
    future = some future;
    poisoned = false;
    task_tag = tag;
    abort = false;
  }

  abbrev pub prepared : ℕ → F → ℕ → Site F → Site F
  prepared arc future tags s =
      let (tag, task_tags) = Executor.generate_tag s.task_tag_num in
      record s {
        host = place_task arc (new_task tag future) s.host;
        reactor_tag_num = tags;
        task_tag_num = task_tags;
      }

abbrev pub handle_of : {T : Type 0} → ℕ → Channel T → JoinHandle T
handle_of arc rx = record { rx = rx; has_awaited = false; recv_fut = unset; task = arc }

-- `spawn`; `arc` is the address of the new `Arc<Task>`, and `future` the wrapped future.
unfoldable pub spawn : {F T : Type 0} → ℕ → F → M (Site F) (JoinHandle T)
spawn arc future = do
  s ← get
  let (rx, tags) = bounded_channel 1 s.reactor_tag_num s.reactor
  modify (prepared arc future tags)
  on (λ s'. s'.host) with_host (wake arc)
  pure (handle_of arc rx)

-- `JoinHandle::abort`: the flag is shared with the task.
unfoldable pub abort : {F T : Type 0} → JoinHandle T → Host F → Host F
abort jh h = update_task jh.task (λ task. record task { abort = true }) h
