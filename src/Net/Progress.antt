-- ===== src/Net/Progress.antt =====
-- net/: a call that is tried again always ends its poll, and its event is not lost.
use min_async_runtime.Base.{
  ℕ, suc, ◌≡◌, ◌≢◌, refl, Bool, true, false, List, [], ◌∷◌, Option, none, some, inl, inr,
  if◌then◌else◌, Exit, returned,
}
use min_async_runtime.Base.Monad.{M}
use min_async_runtime.Base.Future.{Poll, pending, ready, Result, err}
use min_async_runtime.Reactor.{
  Reactor, Status, awaited, happened, poll_entry, insert, remove, handle_event,
  has_token_progressed, is_happened, waker_token, token_event,
}
use min_async_runtime.Reactor
use min_async_runtime.Reactor.Events.{Awaits, poll_lem, handle_event-awaited}
use min_async_runtime.Net.Retry.{
  Attempt, got, would_block, failed, Retry, after_poll, await_event, after_call, retry_loop,
  poll_retry, calls_in_poll,
}

-- An event that has happened is what makes `has_token_progressed` true.
progressed→happened : (o : Option Status) → is_happened o ≡ true → o ≡ some happened
progressed→happened none e = absurd (cc)
progressed→happened (some (awaited w)) e = absurd (cc)
progressed→happened (some happened) e = refl

module _ {W V V' E : Type 0} (call : W → Attempt V E × W) (finish : V → W → Result V' E × W)
    (token waker : ℕ) where
  -- A poll that ends; one that is pending has left its waker for the token.
  abbrev Ends : Exit (Retry W) (Poll (Result V' E)) → Type 0
  Ends x =
      (p : Poll (Result V' E)) × (r : Retry W) × (x ≡ returned p r)
      × (p ≡ pending → (r.waits ≡ true) × Awaits r.reactor token waker)

  abbrev again_of : ℕ → List Bool → M (Retry W) (Poll (Result V' E))
  again_of fuel events = retry_loop call finish token fuel events waker

  abbrev awaiting : M (Retry W) (Poll (Result V' E)) → M (Retry W) (Poll (Result V' E))
  awaiting again = await_event call finish token again waker

  await_event_lem :
      (again : M (Retry W) (Poll (Result V' E))) (r : Retry W)
      → ((r' : Retry W)
          → r.reactor.statuses token ≡ some happened
          → r'.reactor.statuses token ≡ none
          → Ends (again r'))
      → Ends (awaiting again r)
  await_event_lem again r next = elim (poll_lem token waker r.reactor).0 [
    | inl (p, _, stored) ↦ (
      pending,
      record r { waits = true; reactor = (Reactor.poll token waker r.reactor).1 },
      rw (p, after_poll),
      λ e. (refl, stored),
    )
    | inr (p, was, vacant) ↦
        let (q, r', e, left) =
          next (record r { waits = false; reactor = (Reactor.poll token waker r.reactor).1 }) was
            vacant in
        (q, r', rw (p, after_poll) e, left)
  ]

  after_call_lem :
      (again : M (Retry W) (Poll (Result V' E))) (a : Attempt V E) (r : Retry W)
      → Ends (awaiting again r)
      → Ends (after_call call finish token again waker a r)
  after_call_lem again (got v) r ends = (ready (finish v r.world).0, _, refl, λ e. absurd (cc))
  after_call_lem again would_block r ends = ends
  after_call_lem again (failed e) r ends = (ready (err e), r, refl, λ e'. absurd (cc))

  -- No event is left: it has been consumed, and no more come.
  last_call :
      (fuel : ℕ) (r : Retry W) → r.reactor.statuses token ≡ none → Ends (again_of (suc fuel) [] r)
  unfolding retry_loop
  last_call fuel r vacant =
      let r₁ : Retry W = record r { world = (call r.world).1 } in
      after_call_lem (again_of fuel []) (call r.world).0 r₁
        (await_event_lem (again_of fuel []) r₁ (λ r' was now. absurd (cc)))

  -- Each turn of the loop with which the event of another ends uses an event up.
  loop_lem : (events : List Bool) (r : Retry W) → Ends (again_of (calls_in_poll events) events r)
  unfolding retry_loop token_event
  loop_lem [] r =
      let r₁ : Retry W = record r { world = (call r.world).1 } in
      after_call_lem (again_of 1 []) (call r.world).0 r₁
        (await_event_lem (again_of 1 []) r₁ (λ r' was vacant. last_call 0 r' vacant))
  loop_lem (false ∷ events) r =
      let r₁ : Retry W = record r { world = (call r.world).1 } in
      after_call_lem (again_of (calls_in_poll events) events) (call r.world).0 r₁ (
        await_event_lem (again_of (calls_in_poll events) events) r₁
          (λ r' was vacant. loop_lem events r'))
  loop_lem (true ∷ events) r =
      let r₁ : Retry W = record r {
        world = (call r.world).1;
        reactor = record r.reactor { statuses = insert r.reactor.statuses token happened };
      } in
      after_call_lem (again_of (calls_in_poll events) events) (call r.world).0 r₁ (
        await_event_lem (again_of (calls_in_poll events) events) r₁
          (λ r' was vacant. loop_lem events r'))

  poll_lem_of :
      (b : Bool) (events : List Bool) (r : Retry W)
      → Ends (
          if b
          then awaiting (again_of (calls_in_poll events) events) r
          else again_of (calls_in_poll events) events r)
  poll_lem_of true events r =
      await_event_lem (again_of (calls_in_poll events) events) r
        (λ r' was vacant. loop_lem events r')
  poll_lem_of false events r = loop_lem events r

  -- Whatever the calls come to, and whenever the reactor's thread stores events on the token while
  -- the poll is under way, in any number of turns of its loop, as listed in `events`: every poll
  -- returns, after at most two calls more than `events` is long. If it is pending, the future waits,
  -- and the poll's waker is the one that the token's next event wakes.
  pub poll_retry_lem :
      (events : List Bool) (r : Retry W)
      → (p : Poll (Result V' E)) × (r' : Retry W) × (poll_retry call finish token events waker r
          ≡ returned p r')
        × (p ≡ pending → (r'.waits ≡ true) × Awaits r'.reactor token waker)
  unfolding poll_retry
  poll_retry_lem events r = poll_lem_of r.waits events r

module _ {W V V' E : Type 0} (call : W → Attempt V E × W) (finish : V → W → Result V' E × W)
    (token : ℕ) where
  -- After a pending poll, on a token other than the reactor's own, the token's event wakes its
  -- task, and the next poll makes the call again: if the call then succeeds, that poll is ready
  -- with its result.
  pub poll_retry-handle_event :
      (waker waker' : ℕ) (events : List Bool) (r r₁ : Retry W) (v : V) (w : W)
      → token ≢ waker_token
      → poll_retry call finish token events waker r ≡ returned pending r₁
      → call r₁.world ≡ (got v, w)
      → (reactor : Reactor) × (r₂ : Retry W) × (handle_event token r₁.reactor
          ≡ returned (waker ∷ []) reactor)
        × (poll_retry call finish token [] waker' (record r₁ { reactor = reactor })
            ≡ returned (ready (finish v w).0) r₂)
        × (r₂.world ≡ (finish v w).1)
  unfolding poll_retry retry_loop has_token_progressed Reactor.poll
  poll_retry-handle_event waker waker' events r r₁ v w own waits success =
      let (p, r', e, left) = poll_retry_lem call finish token waker events r in
      let same : r' ≡ r₁ = cc in
      let (waiting', stored') = left (cc) in
      let waiting : r₁.waits ≡ true = rw (← same) waiting' in
      let stored : Awaits r₁.reactor token waker = rw (← same) stored' in
      let (reactor, e', there) = handle_event-awaited token waker r₁.reactor own stored in
      let is : reactor.statuses token ≡ some happened =
        progressed→happened (reactor.statuses token) there in
      (
        reactor,
        record {
          waits = false;
          world = (finish v w).1;
          reactor = record reactor { statuses = remove reactor.statuses token };
        },
        e',
        simp (waiting, is, success, poll_entry, after_poll, after_call),
        refl,
      )

  -- An event that comes before the future waits for it is not lost: if the first call would block
  -- and the event is already there, the same poll makes the call again.
  pub poll_retry-early :
      (waker : ℕ) (r : Retry W) (v : V) (w₁ w₂ : W)
      → r.waits ≡ false
      → has_token_progressed token r.reactor ≡ true
      → call r.world ≡ (would_block, w₁)
      → call w₁ ≡ (got v, w₂)
      → (r₁ : Retry W) × (poll_retry call finish token [] waker r
          ≡ returned (ready (finish v w₂).0) r₁)
        × (r₁.world ≡ (finish v w₂).1)
  unfolding poll_retry retry_loop has_token_progressed Reactor.poll
  poll_retry-early waker r v w₁ w₂ starts there blocks success =
      let is : r.reactor.statuses token ≡ some happened =
        progressed→happened (r.reactor.statuses token) there in
      (
        record {
          waits = false;
          world = (finish v w₂).1;
          reactor = record r.reactor { statuses = remove r.reactor.statuses token };
        },
        simp (starts, blocks, is, success, poll_entry, after_poll, after_call),
        refl,
      )
