-- ===== src/Channel/Wake.antt =====
-- src/sync/mpsc/bounded_channel.rs with src/reactor.rs: a value that is sent wakes the receiver
-- that waits for it, unless it is sent while the receiver is about to wait.
use min_async_runtime.Base.{
  ℕ, ◌<◌, ◌≡◌, refl, ap, true, List, [], ◌∷◌, length, ◌==◌, ==_refl, if◌then◌else◌, returned, arith,
}
use min_async_runtime.Base.Monad.{M, on, effects}
use min_async_runtime.Base.Future.{Poll, pending, ready, Result, ok}
use min_async_runtime.Ring.Refine.{Holds}
use min_async_runtime.Reactor.{tag_waker, store_waker_channel, handle_event, waker_token}
use min_async_runtime.Reactor.Drain.{wakers, handle_event-drain}
use min_async_runtime.Channel.{Channel, RecvError, send, poll_recv, with_reactor}
use min_async_runtime.Channel.Laws.{Synced, Synced-with_reactor, send_lem, poll_recv_lem}

-- Where a task stands in `poll_recv`: the load of `queue_cnt` and what follows are apart.
pub data RecvPoint (T : Type 0) : Type 0 where
  check_count : ℕ → RecvPoint T
  store_waker : ℕ → RecvPoint T
  recv_returned : Poll (Result T RecvError) → RecvPoint T

module _ {T : Type 0} where
  pub recv_step : RecvPoint T → Channel T → RecvPoint T × Channel T
  recv_step (check_count waker) c =
      if c.queue_cnt == 0
      then (store_waker waker, c)
      else (let (p, c') = poll_recv waker c in (recv_returned p, c'))
  recv_step (store_waker waker) c = (
    recv_returned pending,
    record c { reactor = store_waker_channel c.reactor_tag waker c.reactor },
  )
  recv_step (recv_returned p) c = (recv_returned p, c)

  -- The reactor's thread handles its waker event.
  unfoldable pub reactor_turn : M (Channel T) (List ℕ)
  reactor_turn = on (λ c. c.reactor) with_reactor (handle_event waker_token)

  module _ (c : Channel T) (v : Synced c) (cap : ℕ) (x : T) (waker : ℕ)
      (held : Holds c.reactor.reactor_tag_buffer cap []) (room : 0 < cap)
      (alive : c.chan.receiver ≡ true) (vacant : c.chan.queue ≡ []) (place : 0 < c.chan.bound) where
    short : length c.chan.queue < c.chan.bound
    short = omega (arith, ap length vacant)

    -- The channel once the receiver's waker is stored.
    waiting : Channel T
    waiting = record c { reactor = store_waker_channel c.reactor_tag waker c.reactor }

    waiting-Synced : Synced waiting
    unfolding waiting
    waiting-Synced = Synced-with_reactor _ v

    -- A receiver that has found the channel, which has room and is in good order, empty is woken by
    -- the next value: once `poll_recv` is pending, `send` returns, the reactor then wakes that
    -- receiver's waker, and the next `poll_recv` takes the value.
    pub poll_recv-send-wakes :
        (c₁ c₂ c₃ c₄ : Channel T) × (poll_recv waker c ≡ (pending, c₁))
        × (send x c₁ ≡ returned (ok tt) c₂)
        × (reactor_turn c₂ ≡ returned (waker ∷ []) c₃)
        × (poll_recv waker c₃ ≡ (ready (ok x), c₄))
    unfolding waiting reactor_turn store_waker_channel wakers
    poll_recv-send-wakes =
        let (c₂, p₂, q₂, h₂, tags₂, _, v₂, _) =
          send_lem waiting waiting-Synced cap [] x held room alive short in
        let (r₃, p₃, _) = handle_event-drain cap c₂.reactor (c.reactor_tag ∷ []) h₂ in
        let woken : wakers c₂.reactor.reactor_tags (c.reactor_tag ∷ []) ≡ waker ∷ [] =
          rw tags₂ (rw (==_refl c.reactor_tag)) in
        let c₃ = with_reactor r₃ c₂ in
        let v₃ : Synced c₃ = Synced-with_reactor _ v₂ in
        let next = (poll_recv_lem c₃ v₃ waker).1 x [] (rw vacant at q₂) in
        (
          waiting,
          c₂,
          c₃,
          next.0,
          (poll_recv_lem c v waker).0 vacant,
          p₂,
          rw (p₃, woken, effects),
          next.1,
        )

    -- On an empty channel with room, whose tag has no waker stored, `poll_recv` loads `queue_cnt`
    -- before it stores its waker: a value that is sent and
    -- announced between the two wakes nobody. The receiver is then pending with the value in the
    -- channel, and a further turn of the reactor wakes nobody either.
    pub recv_step-loses :
        (tag_waker (c.reactor.reactor_tags c.reactor_tag) ≡ [])
        → (c₁ c₂ c₃ c₄ : Channel T) × (recv_step (check_count waker) c ≡ (store_waker waker, c))
          × (send x c ≡ returned (ok tt) c₁)
          × (reactor_turn c₁ ≡ returned [] c₂)
          × (recv_step (store_waker waker) c₂ ≡ (recv_returned pending, c₃))
          × (c₃.chan.queue ≡ x ∷ [])
          × (reactor_turn c₃ ≡ returned [] c₄)
    unfolding recv_step reactor_turn store_waker_channel wakers
    recv_step-loses nobody =
        let (c₁, p₁, q₁, h₁, tags₁, _, _, _) = send_lem c v cap [] x held room alive short in
        let (r₂, p₂, (empty₂, tags₂, _)) =
          handle_event-drain cap c₁.reactor (c.reactor_tag ∷ []) h₁ in
        let none_woken : wakers c₁.reactor.reactor_tags (c.reactor_tag ∷ []) ≡ [] =
          rw tags₁ (rw nobody) in
        let c₂ = with_reactor r₂ c₁ in
        let c₃ : Channel T = record c₂ { reactor = store_waker_channel c₂.reactor_tag waker r₂ } in
        let (r₄, p₄, _) = handle_event-drain cap c₃.reactor [] empty₂ in
        let zero_count : (c.queue_cnt == 0) ≡ true = ground (arith, v.counted) in
        (
          c₁,
          c₂,
          c₃,
          with_reactor r₄ c₃,
          rw zero_count,
          p₁,
          rw (p₂, none_woken, effects),
          refl,
          rw vacant at q₁,
          rw (p₄, effects),
        )

  -- Alone, the steps of `poll_recv` do what it does, on every branch.
  pub recv_step-eq-poll_recv :
      (waker : ℕ) (c : Channel T)
      → (let (point, c₁) = recv_step (check_count waker) c in recv_step point c₁)
        ≡ (recv_returned (poll_recv waker c).0, (poll_recv waker c).1)
  unfolding recv_step poll_recv
  recv_step-eq-poll_recv waker c = ground arith
