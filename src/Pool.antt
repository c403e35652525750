-- ===== src/Pool.antt =====
-- src/pool/thread_pool.rs: `HoochPool`, a pool of threads with a queue of jobs for each. A job is a
-- value of any type; what running it comes to is an argument.
pub mod Turns
pub mod Worker
pub mod Races
mod Tests
mod UnitTests
use min_async_runtime.Base.{
  ℕ, zero, suc, ◌+◌, ◌%◌, Bool, true, false, List, [], ◌∷◌, Option, none, some, ◌==◌, if◌then◌else◌,
  get_elem?, set, replicate, returned, panicked, blocked, exhausted, Exit,
}
use min_async_runtime.Base.Monad.{M, pure, ◌>>=◌, ◌>>◌, panic, get, modify}
use min_async_runtime.Mpsc.{
  Mpsc, sync_channel, Sent, sent, full, disconnected, Received, received, empty, hung_up,
}
use min_async_runtime.Mpsc

-- The receiver of each channel is with the thread that serves it.
pub record Pool (J : Type 0) : Type 0 where
  pub num_threads : ℕ
  pub cursor : ℕ
  pub senders : List (Mpsc J)

abbrev pub jobs_bound : ℕ
jobs_bound = 1024

module _ {J : Type 0} where
  abbrev pub get_or_init : ℕ → Option (Pool J) → Pool J
  get_or_init n (some pool) = pool
  get_or_init n none = record {
    num_threads = n;
    cursor = 0;
    senders = replicate n (sync_channel jobs_bound);
  }

  -- `init` on the thread's cell.
  unfoldable pub init : ℕ → Option (Pool J) → Option (Pool J)
  init num_threads cell = some (get_or_init num_threads cell)

  -- `get` on the thread's cell; `none` is its panic.
  abbrev pub get_pool : Option (Pool J) → Option (Pool J)
  get_pool cell = cell

  -- The index of this call. The remainder by 0 panics.
  unfoldable pub get_and_update_index : M (Pool J) ℕ
  get_and_update_index = do
    p ← get
    if p.num_threads == 0
        then panic
        else do modify (λ p'. record p' { cursor = (p.cursor + 1) % p.num_threads }); pure p.cursor

  abbrev pub sent_to : ℕ → Pool J → Sent J → Exit (Pool J) (Unit {0})
  sent_to idx p (sent ch) = returned tt (record p { senders = set p.senders idx ch })
  sent_to idx p full = blocked
  sent_to idx p disconnected = panicked p

  -- `self.senders[idx]`, then `send(boxed_fn).unwrap()`
  abbrev pub send_job : ℕ → J → Pool J → Option (Mpsc J) → Exit (Pool J) (Unit {0})
  send_job idx job p none = panicked p
  send_job idx job p (some ch) = sent_to idx p (Mpsc.send ch job)

  unfoldable pub execute : J → M (Pool J) (Unit {0})
  unfolding get_and_update_index
  execute job = do idx ← get_and_update_index; λ p. send_job idx job p (get_elem? p.senders idx)

  -- `execute` for each job in turn.
  unfoldable pub execute_all : List J → M (Pool J) (Unit {0})
  execute_all [] = pure tt
  execute_all (job ∷ jobs) = do execute job; execute_all jobs

  -- A job that panics unwinds its thread, and the receiver is dropped.
  abbrev pub run_job : (J → Bool) → ℕ → Pool J → Mpsc J → J → Exit (Pool J) (Option J)
  run_job runs w p ch job =
      if runs job
      then returned (some job) (record p { senders = set p.senders w ch })
      else returned none (record p { senders = set p.senders w (record ch { receiver = false }) })

  abbrev pub after_job : (J → Bool) → ℕ → Pool J → Received J → Exit (Pool J) (Option J)
  after_job runs w p (received job ch) = run_job runs w p ch job
  after_job runs w p empty = blocked
  after_job runs w p hung_up = returned none p

  abbrev pub receive_job : (J → Bool) → ℕ → Pool J → Option (Mpsc J) → Exit (Pool J) (Option J)
  receive_job runs w p none = blocked
  receive_job runs w p (some ch) = after_job runs w p (Mpsc.try_recv ch)

  -- One round of the loop of thread `w`: the job that it ran, or `none` when the thread is over.
  -- `runs` says whether a job returns.
  unfoldable pub work : (J → Bool) → ℕ → M (Pool J) (Option J)
  work runs w p = receive_job runs w p (get_elem? p.senders w)
