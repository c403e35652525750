-- ===== src/Spawner/Boxed.antt =====
-- src/spawner.rs: the `Box<dyn Any>` in which `spawn` sends the result, and the `downcast` of
-- `JoinHandle::poll`. A type has a number, its `TypeId`; `El` gives the types of the numbers.
use min_async_runtime.Base.{
  ℕ, ◌≡◌, refl, ap, ◌∙◌, subst, true, List, [], ◌∷◌, ◌++◌, map, Option, none, some, length,
  length-map, add_usize, ltb, ◌==◌, Bool-cases, inl, inr, Exit, returned, panicked, blocked,
  exhausted, faulted,
}
use min_async_runtime.Base.Monad.{M, pure, ◌>>=◌, ◌>>◌, panic, modify, chain, place}
use min_async_runtime.Base.Future.{Poll, pending, ready, Result, ok, err}
use mathlib.Core.Path.{subst_refl}
use mathlib.Core.List.{map-append}
use native.Mathlib.Decide.{ℕ_discrete}
use min_async_runtime.Mpsc.{Mpsc}
use min_async_runtime.Mpsc
use min_async_runtime.Channel.{
  Channel, RecvError, poll_recv, after_recv, drop, with_reactor, bounded_channel,
}
use min_async_runtime.Reactor.{Reactor, register_reactor_tag}
use min_async_runtime.Channel
use min_async_runtime.Spawner.{
  JoinHandle, JoinHandleError, RecvFuture, unset, receiving, completed, finish, poll, poll_recv_fut,
  joined, handle_of,
}

module _ (El : ℕ → Type 0) where
  -- `Box<dyn Any + Send>`
  pub record Boxed : Type 0 where
    pub type_id : ℕ
    pub value : El type_id

  -- `downcast::<T>()`
  abbrev pub cast : (t : ℕ) (b : Boxed) → Dec (b.type_id ≡ t) → Option (El t)
  cast t b (yes same) = some (subst El same b.value)
  cast t b (no other) = none

  unfoldable pub downcast : (t : ℕ) → Boxed → Option (El t)
  downcast t b = cast t b (ℕ_discrete b.type_id t)

  -- `Box::new`
  abbrev pub box : (t : ℕ) → El t → Boxed
  box t v = record { type_id = t; value = v }

  ℕ-set : IsSet ℕ
  ℕ-set = hlevel

  cast-box : (t : ℕ) (v : El t) (d : Dec (t ≡ t)) → cast t (box t v) d ≡ some v
  cast-box t v (yes same) =
      ap (λ p. some (subst El p v)) (ℕ-set t t same refl) ∙ ap some (subst_refl El v)
  cast-box t v (no other) = absurd (other refl)

  downcast-box : (t : ℕ) (v : El t) → downcast t (box t v) ≡ some v
  unfolding downcast
  downcast-box t v = cast-box t v (ℕ_discrete t t)

  -- `*ok_val.downcast::<T>().unwrap()`
  abbrev pub unwrapped :
      {t : ℕ} → Option (El t) → M (JoinHandle Boxed) (Poll (Result (El t) JoinHandleError))
  unwrapped none = panic
  unwrapped (some v) = pure (ready (ok v))

  abbrev pub unboxed :
      (t : ℕ)
      → Poll (Result Boxed JoinHandleError)
      → M (JoinHandle Boxed) (Poll (Result (El t) JoinHandleError))
  unboxed t pending = pure pending
  unboxed t (ready (ok b)) = unwrapped (downcast t b)
  unboxed t (ready (err e)) = pure (ready (err e))

  -- `Future for JoinHandle<T>`, with the box.
  unfoldable pub poll_boxed :
      (t : ℕ) → ℕ → M (JoinHandle Boxed) (Poll (Result (El t) JoinHandleError))
  poll_boxed t waker = do p ← poll waker; unboxed t p

  -- The end of the wrapped future, with the box.
  unfoldable pub finish_boxed : (t : ℕ) → El t → M (Channel Boxed) (Unit {0})
  finish_boxed t res = finish (box t res)

  -- A channel and a handle with every value in its box.
  abbrev pub in_boxes : (t : ℕ) → Mpsc (El t) → Mpsc Boxed
  in_boxes t ch = record {
    queue = map (box t) ch.queue;
    bound = ch.bound;
    senders = ch.senders;
    receiver = ch.receiver;
  }

  abbrev pub channel_in_boxes : (t : ℕ) → Channel (El t) → Channel Boxed
  channel_in_boxes t c = record {
    chan = in_boxes t c.chan;
    queue_cnt = c.queue_cnt;
    clone_count = c.clone_count;
    reactor_tag = c.reactor_tag;
    reactor = c.reactor;
    notified = c.notified;
  }

  abbrev pub handle_in_boxes : (t : ℕ) → JoinHandle (El t) → JoinHandle Boxed
  handle_in_boxes t jh = record {
    rx = channel_in_boxes t jh.rx;
    has_awaited = jh.has_awaited;
    recv_fut = jh.recv_fut;
    task = jh.task;
  }

  abbrev pub result_in_box : {E : Type 0} → (t : ℕ) → Poll (Result (El t) E) → Poll (Result Boxed E)
  result_in_box t pending = pending
  result_in_box t (ready (ok v)) = ready (ok (box t v))
  result_in_box t (ready (err e)) = ready (err e)

  received_in_boxes :
      (t : ℕ) (c : Channel (El t)) (q : List (El t))
      → after_recv (channel_in_boxes t c) (Mpsc.receive (map (box t) q) (in_boxes t c.chan)) ≡ (
          let (p, c') = after_recv c (Mpsc.receive q c.chan) in
          (result_in_box t p, channel_in_boxes t c'))
  received_in_boxes t c [] = elim (Bool-cases (c.chan.senders == 0)) [
    | inl e ↦ rw e refl
    | inr e ↦ rw e refl
  ]
  received_in_boxes t c (v ∷ q) = refl

  poll_recv-boxed :
      (t waker : ℕ) (c : Channel (El t))
      → poll_recv waker (channel_in_boxes t c)
        ≡ (let (p, c') = poll_recv waker c in (result_in_box t p, channel_in_boxes t c'))
  unfolding poll_recv
  poll_recv-boxed t waker c = elim (Bool-cases (c.queue_cnt == 0)) [
    | inl e ↦ rw e refl
    | inr e ↦ rw e (received_in_boxes t c c.chan.queue)
  ]

  -- The end of a call on a part, as the end of a call on the part in its box.
  abbrev pub onto : {S T A : Type 0} → (S → T) → Exit S A → Exit T A
  onto f (returned a s) = returned a (f s)
  onto f (panicked s) = panicked (f s)
  onto f blocked = blocked
  onto f exhausted = exhausted
  onto f faulted = faulted

  joined_in_boxes :
      (t : ℕ) (jh : JoinHandle (El t)) (p : Poll (Result (El t) RecvError)) (c : Channel (El t))
      → chain
          (let (q, jh') = joined (handle_in_boxes t jh) (result_in_box t p, channel_in_boxes t c) in
            returned q jh')
          (unboxed t)
        ≡ onto (handle_in_boxes t) (let (q, jh') = joined jh (p, c) in returned q jh')
  joined_in_boxes t jh pending c = refl
  joined_in_boxes t jh (ready (ok v)) c = rw (downcast-box t v) refl
  joined_in_boxes t jh (ready (err e)) c = refl

  recv_fut_in_boxes :
      (t waker : ℕ) (jh : JoinHandle (El t)) (f : RecvFuture)
      → chain (poll_recv_fut f waker (handle_in_boxes t jh)) (unboxed t)
        ≡ onto (handle_in_boxes t) (poll_recv_fut f waker jh)
  recv_fut_in_boxes t waker jh completed = refl
  recv_fut_in_boxes t waker jh receiving =
      rw (poll_recv-boxed t waker jh.rx)
        (joined_in_boxes t jh (poll_recv waker jh.rx).0 (poll_recv waker jh.rx).1)
  recv_fut_in_boxes t waker jh unset =
      rw (poll_recv-boxed t waker jh.rx)
        (joined_in_boxes t jh (poll_recv waker jh.rx).0 (poll_recv waker jh.rx).1)

  poll_in_boxes :
      (t waker : ℕ) (jh : JoinHandle (El t))
      → poll_boxed t waker (handle_in_boxes t jh) ≡ onto (handle_in_boxes t) (poll waker jh)
  unfolding poll_boxed poll
  poll_in_boxes t waker jh =
      recv_fut_in_boxes t waker (record jh { has_awaited = true }) jh.recv_fut

  -- The rest of `send` after the channel has taken the value, and the drop of the sender.
  announced_in_boxes :
      (t : ℕ) (c : Channel (El t)) (x : Exit Reactor (Unit {0}))
      → chain
          (chain (place with_reactor (channel_in_boxes t c) x) (λ u.
            modify (λ c'. record c' { notified = true })
            >> pure {A = Result (Unit {0}) Boxed} (ok tt)))
          (λ r. modify drop)
        ≡ onto (channel_in_boxes t) (
            chain
              (chain (place with_reactor c x) (λ u.
                modify (λ c'. record c' { notified = true })
                >> pure {A = Result (Unit {0}) (El t)} (ok tt)))
              (λ r. modify drop))
  unfolding drop
  announced_in_boxes t c (returned u r) = refl
  announced_in_boxes t c (panicked r) = refl
  announced_in_boxes t c blocked = refl
  announced_in_boxes t c exhausted = refl
  announced_in_boxes t c faulted = refl

  finish_in_boxes :
      (t : ℕ) (v : El t) (c : Channel (El t))
      → finish_boxed t v (channel_in_boxes t c) ≡ onto (channel_in_boxes t) (finish v c)
  unfolding finish_boxed finish Channel.send drop
  finish_in_boxes t v c = elim (Bool-cases c.chan.receiver) [
    | inl alive ↦ elim (Bool-cases (ltb (length c.chan.queue) c.chan.bound)) [
      | inl room ↦
          let c₁ : Channel (El t) = record c {
            chan = record c.chan { queue = c.chan.queue ++ v ∷ []; receiver = true };
            queue_cnt = add_usize c.queue_cnt 1;
          } in
          rw alive (
            rw (length-map c.chan.queue (box t)) (
              rw room (
                rw (← map-append (box t) c.chan.queue (v ∷ []))
                  (announced_in_boxes t c₁ (register_reactor_tag c.reactor_tag c.reactor)))))
      | inr none_left ↦ rw alive (rw (length-map c.chan.queue (box t)) (rw none_left refl))
    ]
    | inr dead ↦ rw dead refl
  ]

  -- `spawn` makes a handle of type `T` on a channel of boxes, the wrapped future sends a box with a
  -- `T`, and a poll of the handle takes the box apart as a `T`. So a handle keeps its type: the new
  -- handle, the end of the future, and a poll do with the boxes what they would do with the values
  -- themselves, however they end; none of them panics in the `unwrap` of the `downcast`.
  pub handle_in_boxes_lem :
      (t arc bound counter waker : ℕ) (v : El t) (reactor : Reactor) (jh : JoinHandle (El t))
      → (handle_of arc (bounded_channel {T = Boxed} bound counter reactor).0
          ≡ handle_in_boxes t (handle_of arc (bounded_channel {T = El t} bound counter reactor).0))
        × (finish_boxed t v (channel_in_boxes t jh.rx) ≡ onto (channel_in_boxes t) (finish v jh.rx))
        × (poll_boxed t waker (handle_in_boxes t jh) ≡ onto (handle_in_boxes t) (poll waker jh))
  unfolding bounded_channel
  handle_in_boxes_lem t arc bound counter waker v reactor jh =
      (refl, finish_in_boxes t v jh.rx, poll_in_boxes t waker jh)
