-- ===== src/Time/Sleep.antt =====
-- src/time/sleep.rs: `Sleep` with the reactor. A duration is a number. Whether the kernel and `mio`
-- take a timer for a duration and a token is an argument: `false` is a panic in one of the
-- `unwrap`s.
use min_async_runtime.Base.{
  ℕ, ◌≡◌, ◌≢◌, refl, Bool, true, false, not, List, [], ◌∷◌, Option, none, some, if◌then◌else◌,
  length, replicate, returned, panicked,
}
use min_async_runtime.Base.Monad.{M, pure, ◌>>=◌, ◌>>◌, modify, effects}
use min_async_runtime.Base.Future.{Poll, pending, ready}
use min_async_runtime.Reactor.{
  Reactor, unique_token, status_store, has_token_progressed, handle_event, waker_token,
}
use min_async_runtime.Reactor.Events.{progress}

-- `timer` is the duration that the timer was set to.
pub record Sleep : Type 0 where
  pub duration : ℕ
  pub has_polled : Bool
  pub mio_token : ℕ
  pub timer : Option ℕ

-- A `Sleep` and the reactor.
pub record Sleeping : Type 0 where
  pub sleep : Sleep
  pub reactor : Reactor

-- `from_duration` on the counter of tokens: the future, and the counter after it.
unfoldable pub from_duration : ℕ → ℕ → Sleep × ℕ
unfolding unique_token
from_duration duration counter =
    let (token, counter') = unique_token counter in
    (record { duration = duration; has_polled = false; mio_token = token; timer = none }, counter')

abbrev pub armed : Sleeping → Sleeping
armed s = record s { sleep = record s.sleep { timer = some s.sleep.duration; has_polled = true } }

module _ (takes_timer : ℕ → ℕ → Bool) where
  abbrev pub set_timer : M Sleeping (Unit {0})
  set_timer s =
      if takes_timer s.sleep.duration s.sleep.mio_token then returned tt (armed s) else panicked s

  abbrev pub first_poll : ℕ → M Sleeping (Poll (Unit {0}))
  first_poll waker = do
    modify (λ s. record s { reactor = status_store s.sleep.mio_token waker s.reactor })
    set_timer
    pure pending

  -- `Future for Sleep`
  unfoldable pub poll_sleep : ℕ → M Sleeping (Poll (Unit {0}))
  poll_sleep waker s =
      if not s.sleep.has_polled
      then first_poll waker s
      else if has_token_progressed s.sleep.mio_token s.reactor
      then returned (ready tt) s
      else returned pending s

  -- One poll for each waker of the list.
  unfoldable pub polls : List ℕ → M Sleeping (List (Poll (Unit {0})))
  polls [] = pure []
  polls (waker ∷ wakers) = do p ← poll_sleep waker; ps ← polls wakers; pure (p ∷ ps)

  -- Once set, a sleep is as far as the token is, and polling it changes nothing.
  abbrev pub far : Bool → Poll (Unit {0})
  far true = ready tt
  far false = pending

  polls_lem :
      (wakers : List ℕ) (b : Bool) (s : Sleeping)
      → s.sleep.has_polled ≡ true
      → has_token_progressed s.sleep.mio_token s.reactor ≡ b
      → polls wakers s ≡ returned (replicate (length wakers) (far b)) s
  unfolding polls poll_sleep
  polls_lem [] b s set progress = refl
  polls_lem (w ∷ ws) true s set progress =
      simp (set, progress, polls_lem ws true s set progress, effects)
  polls_lem (w ∷ ws) false s set progress =
      simp (set, progress, polls_lem ws false s set progress, effects)

  -- A new sleep on a token other than the reactor's own, whose timer is taken, sets the timer at
  -- its first poll and is pending until the timer's event, however often it is polled. The event
  -- wakes the task of the first poll, and no other: the wakers of the later polls are not kept.
  -- From then on every poll is ready.
  pub polls-handle_event :
      (first : ℕ) (before after : List ℕ) (s : Sleeping)
      → s.sleep.has_polled ≡ false
      → s.sleep.mio_token ≢ waker_token
      → takes_timer s.sleep.duration s.sleep.mio_token ≡ true
      → (s₁ : Sleeping) × (r : Reactor) × (polls (first ∷ before) s
          ≡ returned (replicate (length (first ∷ before)) pending) s₁)
        × (s₁.sleep.timer ≡ some s.sleep.duration)
        × (handle_event s.sleep.mio_token s₁.reactor ≡ returned (first ∷ []) r)
        × (polls after (record s₁ { reactor = r })
            ≡ returned (replicate (length after) (ready tt)) (record s₁ { reactor = r }))
  unfolding polls poll_sleep
  polls-handle_event first before after s new own takes =
      let token = s.sleep.mio_token in
      let s₁ = armed (record s { reactor = status_store token first s.reactor }) in
      let (not_yet, (r, e, done)) = progress token first s.reactor own in
      (
        s₁,
        r,
        rw new (rw takes (rw (polls_lem before false s₁ refl not_yet, effects))),
        refl,
        e,
        polls_lem after true (record s₁ { reactor = r }) refl done,
      )
