-- ===== src/Channel/Fifo.antt =====
-- src/sync/mpsc/bounded_channel.rs: one channel is a queue, whatever uses are made of it.
use min_async_runtime.Base.{
  ℕ, ◌<◌, ◌≡◌, refl, ap, List, [], ◌∷◌, ◌++◌, length, usize_mod, returned, arith,
}
use min_async_runtime.Base.Monad.{effects}
use min_async_runtime.Ring.Refine.{Holds}
use min_async_runtime.Reactor.{Reactor}
use min_async_runtime.Channel.{Channel, bounded_channel}
use min_async_runtime.Channel.Uses.{Use, use_all, sent_values, queue_run, Room, queue_run-conserves}
use min_async_runtime.Channel.Carry.{Carries, use_once_lem}

module _ {T : Type 0} where
  use_all_lem :
      (us : List (Use T)) (bound cap j s : ℕ) (q : List T) (c : Channel T)
      → Carries c bound cap j s q
      → Room bound cap (length q) j s us
      → (c' : Channel T) × (j' s' : ℕ) × (use_all us c ≡ returned (queue_run q us).0 c')
        × Carries c' bound cap j' s' (queue_run q us).1
  unfolding use_all queue_run
  use_all_lem [] bound cap j s q c v room = (c, j, s, refl, v)
  use_all_lem (u ∷ us) bound cap j s q c v room =
      let (c₁, xs, p, j₁, s₁, q₁, v₁, room₁, same) = use_once_lem u us bound cap j s q c v room in
      let (c', j', s', p', v') = use_all_lem us bound cap j₁ s₁ q₁ c₁ v₁ room₁ in
      (c', j', s', rw (same, p, effects) (rw (p', effects) refl), rw same v')

  -- On a new channel, over a reactor whose buffer of tags is well-formed and empty: in any sequence
  -- of sends, receptions, clones and drops of senders, and turns of the reactor, in which each send
  -- finds room in the channel and in the reactor's buffer and only live senders are cloned or
  -- dropped, no call waits or panics; each reception yields what a queue would, the oldest value or,
  -- on an empty queue, nothing; and what was received followed by what is left in the channel is
  -- what was sent, in order.
  pub bounded_channel-use_all :
      (us : List (Use T)) (bound cap counter : ℕ) (r : Reactor)
      → bound < usize_mod
      → Holds r.reactor_tag_buffer cap []
      → Room bound cap 0 0 1 us
      → (c' : Channel T) × (use_all us (bounded_channel bound counter r).0
          ≡ returned (queue_run [] us).0 c')
        × (c'.chan.queue ≡ (queue_run [] us).1)
        × ((queue_run [] us).0 ++ c'.chan.queue ≡ sent_values us)
  unfolding bounded_channel
  bounded_channel-use_all us bound cap counter r small held room =
      let new : Carries (bounded_channel bound counter r).0 bound cap 0 1 [] = record {
        synced = record {
          counted = refl;
          small = small;
          fits = omega arith;
          cloned = refl;
          few = omega arith;
        };
        tags = [];
        held = held;
        waiting = refl;
        inner = refl;
      } in
      let (c', j', s', p, v') = use_all_lem us bound cap 0 1 [] _ new room in
      let left : c'.chan.queue ≡ (queue_run [] us).1 = ap (λ ch. ch.queue) v'.inner in
      (c', p, left, rw left (queue_run-conserves us []))
