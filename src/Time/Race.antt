-- ===== src/Time/Race.antt =====
-- src/time/timeout.rs with a limited future that is a sleep, as in its unit tests: two timers on one
-- reactor.
use min_async_runtime.Base.{
  ℕ, ◌≡◌, ◌≢◌, refl, ◌∙◌, Bool, true, false, List, some, ◌⊎◌, inl, inr, if◌then◌else◌, All,
  returned, count, arith,
}
use min_async_runtime.Base.Monad.{M, on}
use min_async_runtime.Base.Future.{Poll, pending, ready, Result, ok, err}
use min_async_runtime.Reactor.{
  Reactor, awaited, has_token_progressed, handle_events, waker_token, status_store,
}
use min_async_runtime.Reactor.Batch.{came, handle_events_lem}
use min_async_runtime.Time.Sleep.{Sleep, Sleeping, poll_sleep}
use min_async_runtime.Time.Timeout.{
  Timing, Limited, TimeoutError, timed_out, poll_timeout, poll_timeout_lem,
}

abbrev sleeping_of : Limited Sleep → Sleeping
sleeping_of l = record { sleep = l.fut; reactor = l.reactor }

abbrev with_sleeping : Sleeping → Limited Sleep → Limited Sleep
with_sleeping s l = record { fut = s.sleep; reactor = s.reactor }

-- What a poll of the timeout answers, by which of the two timers have run out.
abbrev pub answer : Bool → Bool → Poll (Result (Unit {0}) TimeoutError)
answer true slept = ready (err timed_out)
answer false true = ready (ok tt)
answer false false = pending

answer-woken :
    (expired slept : Bool) (n : ℕ)
    → (expired ≡ true → n ≢ 0)
    → (slept ≡ true → n ≢ 0)
    → (answer expired slept ≡ pending) ⊎ (n ≢ 0)
answer-woken true slept n by_timer by_sleep = inr (by_timer refl)
answer-woken false true n by_timer by_sleep = inr (by_sleep refl)
answer-woken false false n by_timer by_sleep = inl refl

if_id : (b : Bool) → (if b then true else false) ≡ b
if_id true = refl
if_id false = refl

module _ (takes_timer : ℕ → ℕ → Bool) where
  abbrev poll_limited : ℕ → M (Limited Sleep) (Poll (Unit {0}))
  poll_limited waker = on sleeping_of with_sleeping (poll_sleep takes_timer waker)

  -- The poll of `timeout(sleep(..), ..)`.
  unfoldable pub poll_race : ℕ → M (Timing Sleep) (Poll (Result (Unit {0}) TimeoutError))
  poll_race = poll_timeout takes_timer poll_limited

  -- Both timers are set.
  abbrev both_armed : ℕ → Timing Sleep → Timing Sleep
  both_armed waker t = record {
    fut = record t.fut { timer = some t.fut.duration; has_polled = true };
    sleep = record t.sleep { timer = some t.sleep.duration; has_polled = true };
    reactor = status_store t.fut.mio_token waker (status_store t.sleep.mio_token waker t.reactor);
  }

  first_poll_lem :
      (waker : ℕ) (t : Timing Sleep)
      → t.sleep.has_polled ≡ false
      → t.fut.has_polled ≡ false
      → takes_timer t.sleep.duration t.sleep.mio_token ≡ true
      → takes_timer t.fut.duration t.fut.mio_token ≡ true
      → poll_race waker t ≡ returned pending (both_armed waker t)
  unfolding poll_race poll_timeout poll_sleep
  first_poll_lem waker t new new_fut takes takes_fut =
      rw new (rw takes (rw new_fut (rw takes_fut refl)))

  later_poll_lem :
      (waker : ℕ) (t : Timing Sleep) (expired slept : Bool)
      → t.sleep.has_polled ≡ true
      → t.fut.has_polled ≡ true
      → has_token_progressed t.sleep.mio_token t.reactor ≡ expired
      → has_token_progressed t.fut.mio_token t.reactor ≡ slept
      → poll_race waker t ≡ returned (answer expired slept) t
  unfolding poll_race poll_sleep
  later_poll_lem waker t true slept set set_fut e e_fut =
      (poll_timeout_lem takes_timer poll_limited waker t set).0 e
  later_poll_lem waker t false true set set_fut e e_fut =
      (poll_timeout_lem takes_timer poll_limited waker t set).1 e ∙ simp (set_fut, e_fut)
  later_poll_lem waker t false false set set_fut e e_fut =
      (poll_timeout_lem takes_timer poll_limited waker t set).1 e ∙ simp (set_fut, e_fut)

  armed_awaits :
      (waker : ℕ) (t : Timing Sleep)
      → ((both_armed waker t).reactor.statuses t.sleep.mio_token ≡ some (awaited waker))
        × ((both_armed waker t).reactor.statuses t.fut.mio_token ≡ some (awaited waker))
  unfolding status_store
  armed_awaits waker t = (ground arith, ground arith)

  -- `timeout` of a sleep, when the timers of both are taken: the first poll is pending. After any
  -- socket and timer events the next poll is an error if the event of the timeout's timer is among
  -- them, also if the sleep is over by then too; otherwise it is ready if the event of the sleep's
  -- timer is among them, and pending if neither is. In the first two cases the events have woken
  -- the task of the first poll.
  pub poll_race-handle_events :
      (waker waker' : ℕ) (events : List ℕ) (t : Timing Sleep)
      → t.sleep.has_polled ≡ false
      → t.fut.has_polled ≡ false
      → takes_timer t.sleep.duration t.sleep.mio_token ≡ true
      → takes_timer t.fut.duration t.fut.mio_token ≡ true
      → All (λ e. e ≢ waker_token) events
      → (t₁ : Timing Sleep) × (woken : List ℕ) × (r : Reactor) × (poll_race waker t
          ≡ returned pending t₁)
        × (handle_events events t₁.reactor ≡ returned woken r)
        × (poll_race waker' (record t₁ { reactor = r })
            ≡ returned
                (answer (came t.sleep.mio_token events) (came t.fut.mio_token events))
                (record t₁ { reactor = r }))
        × ((answer (came t.sleep.mio_token events) (came t.fut.mio_token events) ≡ pending)
            ⊎ (count waker woken ≢ 0))
  unfolding has_token_progressed
  poll_race-handle_events waker waker' events t new new_fut takes takes_fut all =
      let t₁ = both_armed waker t in
      let (woken, r, p, states, wakes) = handle_events_lem events t₁.reactor all in
      let (waits, waits_fut) = armed_awaits waker t in
      let expired = states t.sleep.mio_token ∙ rw waits (if_id (came t.sleep.mio_token events)) in
      let slept = states t.fut.mio_token ∙ rw waits_fut (if_id (came t.fut.mio_token events)) in
      (
        t₁,
        woken,
        r,
        first_poll_lem waker t new new_fut takes takes_fut,
        p,
        later_poll_lem waker' (record t₁ { reactor = r }) _ _ refl refl expired slept,
        answer-woken _ _ (count waker woken) (wakes t.sleep.mio_token waker waits)
            (wakes t.fut.mio_token waker waits_fut),
      )
