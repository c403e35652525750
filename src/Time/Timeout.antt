-- ===== src/Time/Timeout.antt =====
-- src/time/timeout.rs: `Timeout`, whose `sleep` is the `Sleep` that `sleep` of src/time/sleep.rs
-- makes when it is polled first, and that is not polled again once it is ready. The future that it
-- limits is any type with a `poll`, which may use the reactor, panic, or wait.
use min_async_runtime.Base.{ℕ, ◌≡◌, Bool, true, false, returned}
use min_async_runtime.Base.Monad.{M, pure, ◌>>=◌, on}
use min_async_runtime.Base.Future.{Poll, pending, ready, Result, ok, err}
use min_async_runtime.Reactor.{Reactor, has_token_progressed}
use min_async_runtime.Time.Sleep.{Sleep, Sleeping, poll_sleep, from_duration}

pub data TimeoutError : Type 0 where
  timed_out : TimeoutError

-- A `Timeout` and the reactor.
pub record Timing (F : Type 0) : Type 0 where
  pub fut : F
  pub sleep : Sleep
  pub reactor : Reactor

-- The limited future and the reactor.
pub record Limited (F : Type 0) : Type 0 where
  pub fut : F
  pub reactor : Reactor

module _ {F : Type 0} where
  abbrev pub sleep_part : Timing F → Sleeping
  sleep_part t = record { sleep = t.sleep; reactor = t.reactor }

  abbrev pub with_sleep_part : Sleeping → Timing F → Timing F
  with_sleep_part s t = record t { sleep = s.sleep; reactor = s.reactor }

  abbrev pub fut_part : Timing F → Limited F
  fut_part t = record { fut = t.fut; reactor = t.reactor }

  abbrev pub with_fut_part : Limited F → Timing F → Timing F
  with_fut_part l t = record t { fut = l.fut; reactor = l.reactor }

abbrev pub in_time : {T : Type 0} → Poll T → Poll (Result T TimeoutError)
in_time pending = pending
in_time (ready value) = ready (ok value)

-- The new `Timeout`, and the counter of tokens after it.
unfoldable pub timeout : {F : Type 0} → F → ℕ → Reactor → ℕ → Timing F × ℕ
unfolding from_duration
timeout fut duration reactor counter =
    let (sleep, counter') = from_duration duration counter in
    (record { fut = fut; sleep = sleep; reactor = reactor }, counter')

module _ {F T : Type 0} (takes_timer : ℕ → ℕ → Bool) (poll_fut : ℕ → M (Limited F) (Poll T)) where
  abbrev pub unless_expired : ℕ → Poll (Unit {0}) → M (Timing F) (Poll (Result T TimeoutError))
  unless_expired waker (ready u) = pure (ready (err timed_out))
  unless_expired waker pending = do p ← on fut_part with_fut_part (poll_fut waker); pure (in_time p)

  -- `Future for Timeout`
  unfoldable pub poll_timeout : ℕ → M (Timing F) (Poll (Result T TimeoutError))
  poll_timeout waker = do
    p ← on sleep_part with_sleep_part (poll_sleep takes_timer waker)
    unless_expired waker p

  -- Once the timer is set, a poll of the timeout is an error if its event has happened, and the
  -- limited future is then not polled, also if it would be ready; before the event the poll is what
  -- the poll of the future is, on every ending of it.
  pub poll_timeout_lem :
      (waker : ℕ) (t : Timing F)
      → t.sleep.has_polled ≡ true
      → (has_token_progressed t.sleep.mio_token t.reactor ≡ true
          → poll_timeout waker t ≡ returned (ready (err timed_out)) t)
        × (has_token_progressed t.sleep.mio_token t.reactor ≡ false
            → poll_timeout waker t
              ≡ (on fut_part with_fut_part (poll_fut waker) >>= λ p. pure (in_time p)) t)
  unfolding poll_timeout poll_sleep
  poll_timeout_lem waker t set =
      ((λ happened. simp (set, happened)), (λ not_yet. simp (set, not_yet, unless_expired)))
