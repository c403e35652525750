-- ===== src/Channel/Close.antt =====
-- src/sync/mpsc/bounded_channel.rs: what happens at the end of a channel, and after `try_recv`.
use min_async_runtime.Base.{ℕ, ◌<◌, ◌≡◌, refl, ap, ◌∙◌, List, [], ◌∷◌, length, replicate, arith}
use min_async_runtime.Base.Future.{Poll, pending, ready, Result, ok, err}
use min_async_runtime.Channel.{Channel, RecvError, recv_error, try_recv, poll_recv, drop}
use min_async_runtime.Reactor.{store_waker_channel}
use min_async_runtime.Channel.Laws.{Synced}

module _ {T : Type 0} where
  -- One poll for each waker of the list.
  abbrev pub poll_recv_all : List ℕ → Channel T → List (Poll (Result T RecvError)) × Channel T
  poll_recv_all [] c = ([], c)
  poll_recv_all (waker ∷ wakers) c =
      let (p, c₁) = poll_recv waker c in let (ps, c₂) = poll_recv_all wakers c₁ in (p ∷ ps, c₂)

  armed : ℕ → Channel T → Channel T
  armed waker c = record c { reactor = store_waker_channel c.reactor_tag waker c.reactor }

  poll_recv-pending :
      (waker : ℕ) (c : Channel T) → c.queue_cnt ≡ 0 → poll_recv waker c ≡ (pending, armed waker c)
  unfolding poll_recv armed
  poll_recv-pending waker c nothing = simp (nothing)

  poll_recv_all-pending :
      (wakers : List ℕ) (c : Channel T)
      → c.queue_cnt ≡ 0
      → ((poll_recv_all wakers c).0 ≡ replicate (length wakers) pending)
        × ((poll_recv_all wakers c).1.chan ≡ c.chan)
        × ((poll_recv_all wakers c).1.reactor.reactor_tag_buffer ≡ c.reactor.reactor_tag_buffer)
  unfolding armed store_waker_channel
  poll_recv_all-pending [] c nothing = (refl, refl, refl)
  poll_recv_all-pending (waker ∷ wakers) c nothing =
      let (polls, chan, buffer) = poll_recv_all-pending wakers (armed waker c) nothing in
      let now = poll_recv-pending waker c nothing in
      (rw now (ap (λ ps. pending ∷ ps) polls), rw now chan, rw now buffer)

module _ {T : Type 0} (c : Channel T) (v : Synced c) where
  -- A drop of an existing sender changes nothing in the reactor: `fetch_sub` gives the count from
  -- before, and the tag is removed only at 0.
  pub drop-keeps_tag : 0 < c.chan.senders → (drop c).reactor ≡ c.reactor
  unfolding drop
  drop-keeps_tag alive = ground arith

  -- When the last sender of an empty channel in good order is dropped the channel is closed, but
  -- its tag and the stored waker stay in the reactor, no tag is queued, and the receiver gets no
  -- `RecvError`: however often `poll_recv` is called from then on, by whomever, it is pending every
  -- time, and the channel stays closed and empty, with no tag queued.
  pub drop-poll_recv :
      (wakers : List ℕ)
      → c.chan.senders ≡ 1
      → c.chan.queue ≡ []
      → ((drop c).chan.senders ≡ 0)
        × ((drop c).reactor ≡ c.reactor)
        × ((poll_recv_all wakers (drop c)).0 ≡ replicate (length wakers) pending)
        × ((poll_recv_all wakers (drop c)).1.chan ≡ (drop c).chan)
        × ((poll_recv_all wakers (drop c)).1.reactor.reactor_tag_buffer
            ≡ c.reactor.reactor_tag_buffer)
  unfolding drop
  drop-poll_recv wakers one e =
      let nothing : c.queue_cnt ≡ 0 = rw e at v.counted in
      let kept : (drop c).reactor ≡ c.reactor = drop-keeps_tag (omega (arith, one)) in
      let (polls, chan, buffer) = poll_recv_all-pending wakers (drop c) nothing in
      (ground arith, kept, polls, chan, buffer ∙ ap (λ r. r.reactor_tag_buffer) kept)

  -- On a channel in good order `try_recv` takes a value and does not lower `queue_cnt`: after it
  -- has taken the last one, a `poll_recv` on the empty channel reports `RecvError` instead of
  -- waiting, while a sender lives.
  pub try_recv-poll_recv :
      (waker : ℕ) (x : T)
      → c.chan.queue ≡ x ∷ []
      → 0 < c.chan.senders
      → (c' : Channel T) × (try_recv c ≡ (ok x, c'))
        × (0 < c'.chan.senders)
        × (c'.chan.queue ≡ [])
        × (poll_recv waker c' ≡ (ready (err recv_error), c'))
  unfolding try_recv poll_recv
  try_recv-poll_recv waker x e alive = (
    record c { chan = record c.chan { queue = [] } },
    ground arith,
    ground arith,
    refl,
    ground arith,
  )
