-- ===== src/Channel/Laws.antt =====
-- src/sync/mpsc/bounded_channel.rs: `send` and `poll_recv` on every branch.
use min_async_runtime.Base.{
  ℕ, suc, ◌+◌, ◌-◌, ◌<◌, ◌≡◌, refl, true, false, List, [], ◌∷◌, ◌++◌, length, length-append,
  usize_mod, add_usize, returned, blocked, arith,
}
use min_async_runtime.Base.Monad.{effects}
use min_async_runtime.Base.Future.{pending, ready, ok, err}
use min_async_runtime.Mpsc.{Mpsc, Sent, sent, full, disconnected}
use min_async_runtime.Mpsc
use min_async_runtime.Ring.Refine.{Holds}
use min_async_runtime.Reactor.{Reactor, store_waker_channel, with_buffer}
use min_async_runtime.Reactor.Drain.{register_reactor_tag_lem}
use min_async_runtime.Channel.{Channel, send, poll_recv, with_reactor, after_send, clone, drop}

-- The shared counters agree with the inner channel.
pub record Synced {T : Type 0} (c : Channel T) : Type 0 where
  pub counted : c.queue_cnt ≡ length c.chan.queue
  pub small : c.chan.bound < usize_mod
  pub fits : length c.chan.queue < suc c.chan.bound
  pub cloned : c.clone_count ≡ c.chan.senders
  pub few : c.chan.senders < usize_mod

-- The reactor plays no part in it.
pub Synced-with_reactor :
    {T : Type 0} {c : Channel T} (r : Reactor) → Synced c → Synced (with_reactor r c)
Synced-with_reactor r v = record {
  counted = v.counted;
  small = v.small;
  fits = v.fits;
  cloned = v.cloned;
  few = v.few;
}

module _ {T : Type 0} (c : Channel T) (v : Synced c) where
  -- On a channel in good order, `poll_recv` on an empty queue is pending and leaves the caller's
  -- waker with the tag; on any other it takes the oldest value, and the counters still agree.
  pub poll_recv_lem :
      (waker : ℕ)
      → (c.chan.queue ≡ []
          → poll_recv waker c
            ≡ (pending, record c { reactor = store_waker_channel c.reactor_tag waker c.reactor }))
        × ((x : T) (q : List T)
            → c.chan.queue ≡ x ∷ q
            → (c' : Channel T) × (poll_recv waker c ≡ (ready (ok x), c'))
              × (c'.chan ≡ record c.chan { queue = q })
              × (c'.reactor ≡ c.reactor)
              × Synced c')
  unfolding poll_recv
  poll_recv_lem waker = (
    λ e. ground arith,
    λ x q e. (
      record c { chan = record c.chan { queue = q }; queue_cnt = c.queue_cnt - 1 },
      ground arith,
      refl,
      refl,
      ground arith,
    ),
  )

  -- On a channel in good order, with the receiver alive and room in the channel and in the
  -- reactor's buffer, `send` queues the value behind the others, queues the tag, and wakes the
  -- reactor; the counters still agree, and the rest of the channel is as before.
  pub send_lem :
      (cap : ℕ) (tags : List ℕ) (x : T)
      → Holds c.reactor.reactor_tag_buffer cap tags
      → length tags < cap
      → c.chan.receiver ≡ true
      → length c.chan.queue < c.chan.bound
      → (c' : Channel T) × (send x c ≡ returned (ok tt) c')
        × (c'.chan.queue ≡ c.chan.queue ++ x ∷ [])
        × Holds c'.reactor.reactor_tag_buffer cap (tags ++ c.reactor_tag ∷ [])
        × (c'.reactor.reactor_tags ≡ c.reactor.reactor_tags)
        × (c'.notified ≡ true)
        × Synced c'
        × (c'.chan ≡ record c.chan { queue = c.chan.queue ++ x ∷ [] })
  unfolding send
  send_lem cap tags x held room alive fits =
      let (b, p, held') = (register_reactor_tag_lem cap c.reactor_tag c.reactor tags held).0 room in
      let taken : Mpsc.send c.chan x ≡ sent (record c.chan { queue = c.chan.queue ++ x ∷ [] }) =
        ground arith in
      let once : add_usize c.queue_cnt 1 ≡ c.queue_cnt + 1 =
        omega (arith, v.counted, v.small, v.fits) in
      (
        record c {
          chan = record c.chan { queue = c.chan.queue ++ x ∷ [] };
          queue_cnt = c.queue_cnt + 1;
          reactor = with_buffer b c.reactor;
          notified = true;
        },
        rw (taken, after_send) (rw (p, effects) (rw once)),
        refl,
        held',
        refl,
        refl,
        record {
          counted = omega (arith, v.counted, length-append c.chan.queue (x ∷ []));
          small = v.small;
          fits = omega (arith, length-append c.chan.queue (x ∷ []));
          cloned = v.cloned;
          few = v.few;
        },
        refl,
      )

  -- With the receiver gone `send` gives the value back and changes nothing; on a full channel it
  -- waits, and registers nothing.
  pub send_fails :
      (x : T)
      → (c.chan.receiver ≡ false → send x c ≡ returned (err x) c)
        × (c.chan.receiver ≡ true → length c.chan.queue ≡ c.chan.bound → send x c ≡ blocked)
  unfolding send
  send_fails x = (λ gone. rw gone, λ alive full. ground arith)

  -- A clone and a drop keep the counters in agreement, as long as a sender is there to be dropped.
  pub clone-drop-Synced :
      (c.chan.senders + 1 < usize_mod → Synced (clone c)) × (0 < c.chan.senders → Synced (drop c))
  unfolding clone drop
  clone-drop-Synced = (λ room. ground arith, λ alive. ground arith)
