-- ===== src/Spawner/Join.antt =====
-- src/spawner.rs `JoinHandle`: what the handle comes to when the task finishes, and when it never
-- does.
use min_async_runtime.Base.{
  ℕ, ◌<◌, ◌≡◌, ◌≢◌, ◌∙◌, refl, ap, true, List, [], ◌∷◌, ==_refl, length, replicate, returned,
  panicked, arith,
}
use min_async_runtime.Base.Monad.{M, pure, ◌>>=◌, effects}
use min_async_runtime.Base.Future.{Poll, pending, ready, Result, ok}
use min_async_runtime.Ring.Refine.{Holds}
use min_async_runtime.Reactor.{store_waker_channel}
use min_async_runtime.Reactor.Drain.{wakers, handle_event-drain}
use min_async_runtime.Channel.{Channel, RecvError, poll_recv, drop, with_reactor}
use min_async_runtime.Channel.Laws.{
  Synced, Synced-with_reactor, send_lem, poll_recv_lem, clone-drop-Synced,
}
use min_async_runtime.Channel.Close.{drop-keeps_tag}
use min_async_runtime.Channel.Wake.{reactor_turn}
use min_async_runtime.Spawner.{
  JoinHandle, JoinHandleError, RecvFuture, unset, receiving, completed, with_rx, finish, unwinds,
  wrapped_future, joined, poll_recv_fut, poll,
}

module _ {T : Type 0} where
  -- The handle polled once for each waker of the list.
  pub poll_all : List ℕ → M (JoinHandle T) (List (Poll (Result T JoinHandleError)))
  poll_all [] = pure []
  poll_all (w ∷ ws) = do p ← poll w; ps ← poll_all ws; pure (p ∷ ps)

  active-joined :
      (f : RecvFuture) (waker : ℕ) (jh : JoinHandle T)
      → f ≢ completed
      → poll_recv_fut f waker jh
        ≡ (let (p, jh') = joined jh (poll_recv waker jh.rx) in returned p jh')
  active-joined unset waker jh ne = refl
  active-joined receiving waker jh ne = refl
  active-joined completed waker jh ne = absurd (ne refl)

  -- Until its receiver has finished, a poll of the handle is a poll of the channel.
  poll_open :
      (waker : ℕ) (jh : JoinHandle T) (p : Poll (Result T RecvError)) (c : Channel T)
      → jh.recv_fut ≢ completed
      → poll_recv waker jh.rx ≡ (p, c)
      → let (q, jh') = joined (record jh { has_awaited = true }) (p, c) in
        poll waker jh ≡ returned q jh'
  unfolding poll
  poll_open waker jh p c active e =
      active-joined jh.recv_fut waker (record jh { has_awaited = true }) active ∙ rw e

  -- A handle whose channel is empty for good.
  pub poll_pending :
      (waker : ℕ) (jh : JoinHandle T)
      → jh.recv_fut ≢ completed
      → jh.rx.queue_cnt ≡ 0
      → (jh' : JoinHandle T) × (poll waker jh ≡ returned pending jh')
        × (jh'.recv_fut ≢ completed)
        × (jh'.rx.queue_cnt ≡ 0)
  unfolding poll_recv
  poll_pending waker jh active nothing =
      let e : poll_recv waker jh.rx ≡ (
        pending,
        record jh.rx { reactor = store_waker_channel jh.rx.reactor_tag waker jh.rx.reactor },
      ) =
        rw (nothing) in
      (_, poll_open waker jh _ _ active e, (λ h. cc), nothing)

  poll_all_lem :
      (ws : List ℕ) (jh : JoinHandle T)
      → jh.recv_fut ≢ completed
      → jh.rx.queue_cnt ≡ 0
      → (jh' : JoinHandle T) × (poll_all ws jh ≡ returned (replicate (length ws) pending) jh')
  unfolding poll_all
  poll_all_lem [] jh active nothing = (jh, refl)
  poll_all_lem (w ∷ ws) jh active nothing =
      let (jh₁, p, active₁, nothing₁) = poll_pending w jh active nothing in
      let (jh₂, q) = poll_all_lem ws jh₁ active₁ nothing₁ in
      (jh₂, rw (p, effects) (rw (q, effects)))

  -- On an empty channel: a task that panics, or that is dropped because it was aborted, drops its
  -- sender and sends nothing: the panic goes on with the sender dropped, and from then on the
  -- handle is pending however often it is polled. It never becomes ready with an error.
  pub wrapped_future-never_joins :
      {F : Type 0} (jh : JoinHandle T)
      → jh.recv_fut ≢ completed
      → jh.rx.queue_cnt ≡ 0
      → (wrapped_future {F = F} unwinds jh.rx ≡ panicked (drop jh.rx))
        × ((ws : List ℕ)
            → (jh' : JoinHandle T) × (poll_all ws (with_rx (drop jh.rx) jh)
                ≡ returned (replicate (length ws) pending) jh'))
  unfolding wrapped_future drop
  wrapped_future-never_joins jh active nothing =
      (refl, λ ws. poll_all_lem ws (with_rx (drop jh.rx) jh) active nothing)

  -- A handle on an empty channel in good order, whose sender and receiver are alive.
  pub record Open (jh : JoinHandle T) (cap : ℕ) : Type 0 where
    pub synced : Synced jh.rx
    pub held : Holds jh.rx.reactor.reactor_tag_buffer cap []
    pub room : 0 < cap
    pub alive : jh.rx.chan.receiver ≡ true
    pub vacant : jh.rx.chan.queue ≡ []
    pub place : 0 < jh.rx.chan.bound
    pub sender : 0 < jh.rx.chan.senders
    pub unfinished : jh.recv_fut ≢ completed

  -- What `finish` leaves in the channel.
  finish_lem :
      (x : T) (jh : JoinHandle T) (cap : ℕ)
      → Open jh cap
      → (c : Channel T) × (finish x jh.rx ≡ returned tt c)
        × (c.chan.queue ≡ x ∷ [])
        × Holds c.reactor.reactor_tag_buffer cap (jh.rx.reactor_tag ∷ [])
        × (c.reactor.reactor_tags ≡ jh.rx.reactor.reactor_tags)
        × Synced c
  unfolding finish drop
  finish_lem x jh cap o =
      let short : length jh.rx.chan.queue < jh.rx.chan.bound =
        omega (arith, ap length o.vacant, o.place) in
      let (c, p, q, h, tags, _, v, same) =
        send_lem jh.rx o.synced cap [] x o.held o.room o.alive short in
      let alive : 0 < c.chan.senders = omega (arith, ap (λ ch. ch.senders) same, o.sender) in
      let kept = drop-keeps_tag c v alive in
      (
        drop c,
        rw (p, effects),
        rw o.vacant at q,
        rw kept h,
        rw kept tags,
        (clone-drop-Synced c v).1 alive,
      )

  -- On an empty channel in good order, whose ends are alive and whose reactor has no tag in its
  -- buffer, which has room, the value that a task yields reaches the awaiter of its handle, which
  -- has not been ready yet: a poll before that is pending, the wrapped future sends and ends, the reactor's next turn wakes the awaiter and nobody else,
  -- and the poll after that is ready with the value. A poll after that panics.
  pub finish-joins :
      (waker : ℕ) (x : T) (jh : JoinHandle T) (cap : ℕ)
      → Open jh cap
      → (jh₁ jh₄ : JoinHandle T) × (c₂ c₃ : Channel T) × (poll waker jh ≡ returned pending jh₁)
        × (finish x jh₁.rx ≡ returned tt c₂)
        × (reactor_turn c₂ ≡ returned (waker ∷ []) c₃)
        × (poll waker (with_rx c₃ jh₁) ≡ returned (ready (ok x)) jh₄)
        × (poll waker jh₄ ≡ panicked jh₄)
  unfolding poll reactor_turn store_waker_channel wakers
  finish-joins waker x jh cap o =
      let e = (poll_recv_lem jh.rx o.synced waker).0 o.vacant in
      let c₁ : Channel T = record jh.rx {
        reactor = store_waker_channel jh.rx.reactor_tag waker jh.rx.reactor;
      } in
      let jh₁ : JoinHandle T = record jh { has_awaited = true; recv_fut = receiving; rx = c₁ } in
      let o₁ : Open jh₁ cap = record {
        synced = Synced-with_reactor _ o.synced;
        held = o.held;
        room = o.room;
        alive = o.alive;
        vacant = o.vacant;
        place = o.place;
        sender = o.sender;
        unfinished = λ h. cc;
      } in
      let (c₂, p₂, q₂, h₂, tags₂, v₂) = finish_lem x jh₁ cap o₁ in
      let (r₃, p₃, _) = handle_event-drain cap c₂.reactor (jh.rx.reactor_tag ∷ []) h₂ in
      let woken : wakers c₂.reactor.reactor_tags (jh.rx.reactor_tag ∷ []) ≡ waker ∷ [] =
        rw tags₂ (rw (==_refl jh.rx.reactor_tag)) in
      let c₃ = with_reactor r₃ c₂ in
      let v₃ : Synced c₃ = Synced-with_reactor _ v₂ in
      let (c₄, next, _, _, _) = (poll_recv_lem c₃ v₃ waker).1 x [] q₂ in
      let jh₄ : JoinHandle T = record jh₁ { recv_fut = completed; rx = c₄ } in
      (
        jh₁,
        jh₄,
        c₂,
        c₃,
        poll_open waker jh _ _ o.unfinished e,
        p₂,
        rw (p₃, woken, effects),
        poll_open waker (with_rx c₃ jh₁) _ _ (λ h. cc) next,
        refl,
      )
