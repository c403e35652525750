-- ===== src/Reactor/Events.antt =====
-- src/reactor.rs: no event on a token is lost between `poll` and `run`.
use min_async_runtime.Base.{
  ℕ, ◌≡◌, ◌≢◌, refl, true, false, List, [], ◌∷◌, ◌++◌, Option, none, some, ◌==◌, ==_refl, All,
  returned, arith, ◌⊎◌, inl, inr,
}
use min_async_runtime.Base.Monad.{effects}
use min_async_runtime.Base.Future.{pending, ready}
use min_async_runtime.Reactor.{
  Reactor, Status, awaited, happened, insert, status_store, has_token_progressed, poll, poll_entry,
  handle_event, handle_events, waker_token, status_waker,
}

-- What the status of a token stands for: a waker to wake, or an event not yet consumed.
abbrev pub Awaits : Reactor → ℕ → ℕ → Type 0
Awaits r token waker = r.statuses token ≡ some (awaited waker)

-- The two reactors differ at most in the status of `token`.
abbrev pub Elsewhere : ℕ → Reactor → Reactor → Type 0
Elsewhere token r r' =
    ((j : ℕ) → j ≢ token → r'.statuses j ≡ r.statuses j)
    × (r'.reactor_tags ≡ r.reactor_tags)
    × (r'.reactor_tag_buffer ≡ r.reactor_tag_buffer)

poll_entry_lem :
    (token waker : ℕ) (r : Reactor) (o : Option Status)
    → r.statuses token ≡ o
    → let (p, r') = poll_entry token waker o r in
      (((p ≡ pending) × (o ≢ some happened) × Awaits r' token waker)
        ⊎ ((p ≡ ready tt) × (o ≡ some happened) × (r'.statuses token ≡ none)))
      × Elsewhere token r r'
poll_entry_lem token waker r none e =
    (inl (refl, (λ h. cc), ground arith), ((λ j ne. ground arith), refl, refl))
poll_entry_lem token waker r (some (awaited old)) e =
    (inl (refl, (λ h. cc), ground arith), ((λ j ne. ground arith), ground arith, ground arith))
poll_entry_lem token waker r (some happened) e =
    (inr (refl, refl, ground arith), ((λ j ne. ground arith), refl, refl))

-- `poll` is ready exactly when an event has happened since the token was last consumed, and then
-- consumes it; otherwise it leaves the caller's waker as the one to wake. No other token changes.
pub poll_lem :
    (token waker : ℕ) (r : Reactor)
    → let (p, r') = poll token waker r in
      (((p ≡ pending) × (r.statuses token ≢ some happened) × Awaits r' token waker)
        ⊎ ((p ≡ ready tt) × (r.statuses token ≡ some happened) × (r'.statuses token ≡ none)))
      × Elsewhere token r r'
unfolding poll
poll_lem token waker r = poll_entry_lem token waker r (r.statuses token) refl

-- A `poll` that was pending left its waker as the one to wake.
Awaits-poll :
    (token waker : ℕ) (r r' : Reactor) → poll token waker r ≡ (pending, r') → Awaits r' token waker
Awaits-poll token waker r r' e = elim (poll_lem token waker r).0 [
  | inl (_, _, h) ↦ ground arith
  | inr (p, _, _) ↦ absurd (cc)
]

-- After a `poll` that was pending, on a token other than the waker's, the next event on it wakes
-- exactly the waker of that poll, and the poll after the event is ready and leaves the token
-- vacant.
pub poll-handle_event :
    (token waker waker' : ℕ) (r r' : Reactor)
    → token ≢ waker_token
    → poll token waker r ≡ (pending, r')
    → (r'' : Reactor) × (handle_event token r' ≡ returned (waker ∷ []) r'')
      × ((poll token waker' r'').0 ≡ ready tt)
      × ((poll token waker' r'').1.statuses token ≡ none)
unfolding handle_event poll
poll-handle_event token waker waker' r r' ne e =
    let other : (token == waker_token) ≡ false = ground arith in
    let stored = Awaits-poll token waker r r' e in
    (
      record r' { statuses = insert r'.statuses token happened },
      rw (other, stored),
      rw (==_refl token),
      rw (==_refl token, poll_entry) (rw (==_refl token)),
    )

token_event-stays :
    (tokens : List ℕ) (token : ℕ) (r : Reactor)
    → All (λ t. t ≢ waker_token) tokens
    → r.statuses token ≡ some happened
    → (woken : List ℕ) × (r' : Reactor) × (handle_events tokens r ≡ returned woken r')
      × (r'.statuses token ≡ some happened)
unfolding handle_events
token_event-stays [] token r all e = ([], r, refl, e)
token_event-stays (t ∷ tokens) token r (ne, all) e =
    let other : (t == waker_token) ≡ false = ground arith in
    let r₁ : Reactor = record r { statuses = insert r.statuses t happened } in
    let (woken, r', p, stays) = token_event-stays tokens token r₁ all (ground arith) in
    (status_waker (r.statuses t) ++ woken, r', rw other (rw (p, effects)), stays)

-- An event on a token other than the waker's is kept until it is consumed: whatever the status of
-- the token was, also if nobody has polled it yet, after the event and any batch of socket and
-- timer events the next `poll` is ready.
pub handle_events-poll :
    (token waker : ℕ) (later : List ℕ) (r : Reactor)
    → token ≢ waker_token
    → All (λ t. t ≢ waker_token) later
    → (woken : List ℕ) × (r' : Reactor) × (handle_events (token ∷ later) r ≡ returned woken r')
      × ((poll token waker r').0 ≡ ready tt)
unfolding handle_events poll
handle_events-poll token waker later r ne all =
    let other : (token == waker_token) ≡ false = ground arith in
    let r₁ : Reactor = record r { statuses = insert r.statuses token happened } in
    let (woken, r', p, stays) = token_event-stays later token r₁ all (ground arith) in
    (
      status_waker (r.statuses token) ++ woken,
      r',
      rw other (rw (p, effects)),
      rw (stays, poll_entry),
    )

-- An event on a token that is awaited.
pub handle_event-awaited :
    (token waker : ℕ) (r : Reactor)
    → token ≢ waker_token
    → Awaits r token waker
    → (r' : Reactor) × (handle_event token r ≡ returned (waker ∷ []) r')
      × (has_token_progressed token r' ≡ true)
unfolding handle_event has_token_progressed
handle_event-awaited token waker r ne e =
    let other : (token == waker_token) ≡ false = ground arith in
    (record r { statuses = insert r.statuses token happened }, rw (other, e), rw (==_refl token))

-- `status_store` and `has_token_progressed`, as `Sleep` uses them: no progress until an event, and
-- progress from then on.
pub progress :
    (token waker : ℕ) (r : Reactor)
    → token ≢ waker_token
    → let r₁ = status_store token waker r in
      (has_token_progressed token r₁ ≡ false)
      × ((r₂ : Reactor) × (handle_event token r₁ ≡ returned (waker ∷ []) r₂)
          × (has_token_progressed token r₂ ≡ true))
unfolding status_store has_token_progressed
progress token waker r ne =
    let stored : Awaits (status_store token waker r) token waker = rw (==_refl token) in
    (rw (==_refl token), handle_event-awaited token waker (status_store token waker r) ne stored)
