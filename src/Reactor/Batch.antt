-- ===== src/Reactor/Batch.antt =====
-- src/reactor.rs: a batch of socket and timer events.
use min_async_runtime.Base.{
  ℕ, ◌≡◌, ◌≢◌, refl, ◌∙◌, Bool, true, false, List, [], ◌∷◌, ◌++◌, some, ◌==◌, if◌then◌else◌, All,
  returned, count, count-append, Bool-cases, ◌⊎◌, inl, inr, arith,
}
use min_async_runtime.Base.Monad.{effects}
use min_async_runtime.Reactor.{
  Reactor, awaited, happened, is_happened, insert, handle_events, waker_token, status_waker,
}

-- An event on `token` is among `events`.
abbrev pub came : ℕ → List ℕ → Bool
came token [] = false
came token (event ∷ events) = if event == token then true else came token events

module _ (r : Reactor) (event token : ℕ) (events : List ℕ) where
  progress_step :
      (if came token events then true else is_happened (insert r.statuses event happened token))
      ≡ (if came token (event ∷ events) then true else is_happened (r.statuses token))
  progress_step = elim (Bool-cases (event == token)) [
    | inl same ↦ ground arith
    | inr other ↦ ground arith
  ]

  -- The event wakes the task that awaits it, or the task awaits its event still.
  waker_step :
      (waker : ℕ)
      → r.statuses token ≡ some (awaited waker)
      → came token (event ∷ events) ≡ true
      → (count waker (status_waker (r.statuses event)) ≢ 0)
        ⊎ ((insert r.statuses event happened token ≡ some (awaited waker))
            × (came token events ≡ true))
  waker_step waker e h = elim (Bool-cases (event == token)) [
    | inl same ↦
        let who : event ≡ token = ground arith in inl (rw (who, e) (λ none_woken. ground arith))
    | inr other ↦ inr (ground arith, ground arith)
  ]

-- Socket and timer events: a token has progressed when it had, or when its event is among them, and
-- the task that awaits it is woken in that case.
pub handle_events_lem :
    (events : List ℕ) (r : Reactor)
    → All (λ e. e ≢ waker_token) events
    → (woken : List ℕ) × (r' : Reactor) × (handle_events events r ≡ returned woken r')
      × ((token : ℕ)
          → is_happened (r'.statuses token)
            ≡ (if came token events then true else is_happened (r.statuses token)))
      × ((token waker : ℕ)
          → r.statuses token ≡ some (awaited waker)
          → came token events ≡ true
          → count waker woken ≢ 0)
unfolding handle_events
handle_events_lem [] r all = ([], r, refl, (λ token. refl), (λ token waker e h. cc))
handle_events_lem (event ∷ events) r (ne, all) =
    let other : (event == waker_token) ≡ false = ground arith in
    let r₁ : Reactor = record r { statuses = insert r.statuses event happened } in
    let (woken, r', p, states, wakes) = handle_events_lem events r₁ all in
    (
      status_waker (r.statuses event) ++ woken,
      r',
      rw other (rw (p, effects)),
      (λ token. states token ∙ progress_step r event token events),
      (λ token waker e h. elim (waker_step r event token events waker e h) [
        | inl now ↦ λ none_woken.
            now (
              omega (arith, count-append waker (status_waker (r.statuses event)) woken, none_woken))
        | inr (e', h') ↦ λ none_woken.
            wakes token waker e' h' (
              omega (arith, count-append waker (status_waker (r.statuses event)) woken, none_woken))
      ]),
    )
