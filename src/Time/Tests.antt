-- ===== src/Time/Tests.antt =====
-- src/time/sleep.rs and src/time/timeout.rs at a sleep of 400 on token 3, and a sleep of 900 on token 4.
use min_async_runtime.Base.{
  ℕ, ◌≡◌, refl, Bool, true, false, List, [], ◌∷◌, ◌⊎◌, ◌≢◌, count, Option, none, some, ◌==◌,
  if◌then◌else◌, returned,
}
use min_async_runtime.Base.Future.{pending, ready, err}
use min_async_runtime.Reactor.{Reactor, Status, handle_event, handle_events}
use min_async_runtime.Time.Sleep.{Sleep, Sleeping, polls, polls-handle_event}
use min_async_runtime.Time.Race.{answer, poll_race, poll_race-handle_events}
use min_async_runtime.Time.Timeout.{Timing, timed_out}

abbrev statuses : Option Status → ℕ → Option Status
statuses status token = if token == 3 then status else none

abbrev reactor_of : Option Status → Reactor
reactor_of status = record {
  reactor_tag_buffer = record { buffer = none ∷ none ∷ []; start = 0; end = 0; count = 0 };
  reactor_tags = λ t. none;
  statuses = statuses status;
}

abbrev sleep : Sleep
sleep = record { duration = 400; has_polled = false; mio_token = 3; timer = none }

abbrev sleeping : Sleeping
sleeping = record { sleep = sleep; reactor = reactor_of none }

-- The kernel takes every timer.
abbrev takes_timer : ℕ → ℕ → Bool
takes_timer duration token = true

polls-handle_event_example :
    (s₁ : Sleeping) × (r : Reactor) × (polls takes_timer (8 ∷ 9 ∷ []) sleeping
      ≡ returned (pending ∷ pending ∷ []) s₁)
    × (s₁.sleep.timer ≡ some 400)
    × (handle_event 3 s₁.reactor ≡ returned (8 ∷ []) r)
    × (polls takes_timer (9 ∷ []) (record s₁ { reactor = r })
        ≡ returned (ready tt ∷ []) (record s₁ { reactor = r }))
polls-handle_event_example =
    polls-handle_event takes_timer 8 (9 ∷ []) (9 ∷ []) sleeping refl (λ h. cc) refl

abbrev racing : Timing Sleep
racing = record {
  fut = record { duration = 900; has_polled = false; mio_token = 4; timer = none };
  sleep = sleep;
  reactor = reactor_of none;
}

poll_race-handle_events_example :
    (t₁ : Timing Sleep) × (woken : List ℕ) × (r : Reactor) × (poll_race takes_timer 8 racing
      ≡ returned pending t₁)
    × (handle_events (3 ∷ 4 ∷ []) t₁.reactor ≡ returned woken r)
    × (poll_race takes_timer 9 (record t₁ { reactor = r })
        ≡ returned (ready (err timed_out)) (record t₁ { reactor = r }))
    × ((answer true true ≡ pending) ⊎ (count 8 woken ≢ 0))
poll_race-handle_events_example =
    poll_race-handle_events takes_timer 8 9 (3 ∷ 4 ∷ []) racing refl refl refl refl
      ((λ h. cc), ((λ h. cc), tt))
