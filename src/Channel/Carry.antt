-- ===== src/Channel/Carry.antt =====
-- src/sync/mpsc/bounded_channel.rs: each use of a channel goes as it does on a queue.
use min_async_runtime.Base.{
  ℕ, ◌+◌, ◌-◌, ◌<◌, ◌≡◌, refl, sym, ap, ◌∙◌, true, List, [], ◌∷◌, ◌++◌, length, usize_mod, returned,
  length-append, arith, subst,
}
use min_async_runtime.Base.Monad.{effects}
use min_async_runtime.Ring.Refine.{Holds}
use min_async_runtime.Mpsc.{Mpsc}
use min_async_runtime.Reactor.{store_waker_channel}
use min_async_runtime.Reactor.Drain.{handle_event-drain}
use min_async_runtime.Channel.{Channel, clone, drop, with_reactor}
use min_async_runtime.Channel.Laws.{
  Synced, Synced-with_reactor, send_lem, poll_recv_lem, clone-drop-Synced,
}
use min_async_runtime.Channel.Close.{drop-keeps_tag}
use min_async_runtime.Channel.Wake.{reactor_turn}
use min_async_runtime.Channel.Uses.{
  Use, sends, receives, clones, drops, turns, use_once, queue_run, Room,
}

module _ {T : Type 0} where
  -- A channel in good order with its receiver alive, which holds `q`.
  pub record Carries (c : Channel T) (bound cap j s : ℕ) (q : List T) : Type 0 where
    pub synced : Synced c
    pub tags : List ℕ
    pub held : Holds c.reactor.reactor_tag_buffer cap tags
    pub waiting : length tags ≡ j
    pub inner : c.chan ≡ record { queue = q; bound = bound; senders = s; receiver = true }

  -- One use of the channel goes as it does on the queue, and leaves room for the others.
  abbrev pub OneUse : Use T → List (Use T) → ℕ → ℕ → List T → Channel T → Type 0
  OneUse u us bound cap q c =
      (c' : Channel T) × (xs : List T) × (use_once u c ≡ returned xs c')
      × (j' s' : ℕ) × (q' : List T) × Carries c' bound cap j' s' q'
      × Room bound cap (length q') j' s' us
      × (queue_run q (u ∷ us) ≡ (xs ++ (queue_run q' us).0, (queue_run q' us).1))

  module _ (us : List (Use T)) (bound cap j s : ℕ) (q : List T) (c : Channel T)
      (v : Carries c bound cap j s q) where
    held_queue : c.chan.queue ≡ q
    held_queue = ap (λ ch. ch.queue) v.inner

    send_use :
        (x : T)
        → length q < bound
        → j < cap
        → Room bound cap (length q + 1) (j + 1) s us
        → OneUse (sends x) us bound cap q c
    unfolding queue_run
    send_use x place buffered room =
        let short : length c.chan.queue < c.chan.bound =
          omega (arith, ap length held_queue, ap (λ ch. ch.bound) v.inner, place) in
        let (c', p, _, h, _, _, v', chan') =
          send_lem c v.synced cap v.tags x v.held (omega (arith, v.waiting, buffered))
            (ap (λ ch. ch.receiver) v.inner) short in
        (
          c',
          [],
          rw (p, effects) refl,
          j + 1,
          s,
          q ++ x ∷ [],
          record {
            synced = v';
            tags = v.tags ++ c.reactor_tag ∷ [];
            held = h;
            waiting = omega (arith, v.waiting, length-append v.tags (c.reactor_tag ∷ []));
            inner =
                chan' ∙ ap {A = Mpsc T} (λ ch. record ch { queue = ch.queue ++ x ∷ [] }) v.inner;
          },
          subst (λ k. Room bound cap k (j + 1) s us) (sym (length-append q (x ∷ []))) room,
          refl,
        )

    clone_use :
        0 < s
        → s + 1 < usize_mod
        → Room bound cap (length q) j (s + 1) us
        → OneUse clones us bound cap q c
    unfolding queue_run clone
    clone_use some_sender few room = (
      clone c,
      [],
      refl,
      j,
      s + 1,
      q,
      record {
        synced =
            (clone-drop-Synced c v.synced).0 (omega (arith, ap (λ ch. ch.senders) v.inner, few));
        tags = v.tags;
        held = v.held;
        waiting = v.waiting;
        inner = ap {A = Mpsc T} (λ ch. record ch { senders = ch.senders + 1 }) v.inner;
      },
      room,
      refl,
    )

    drop_use : 0 < s → Room bound cap (length q) j (s - 1) us → OneUse drops us bound cap q c
    unfolding queue_run drop
    drop_use some_sender room =
        let alive : 0 < c.chan.senders =
          omega (arith, ap (λ ch. ch.senders) v.inner, some_sender) in
        (
          drop c,
          [],
          refl,
          j,
          s - 1,
          q,
          record {
            synced = (clone-drop-Synced c v.synced).1 alive;
            tags = v.tags;
            held = rw (drop-keeps_tag c v.synced alive) v.held;
            waiting = v.waiting;
            inner = ap {A = Mpsc T} (λ ch. record ch { senders = ch.senders - 1 }) v.inner;
          },
          room,
          refl,
        )

    turn_use : Room bound cap (length q) 0 s us → OneUse turns us bound cap q c
    unfolding queue_run reactor_turn
    turn_use room =
        let (r, p, (empty, _, _)) = handle_event-drain cap c.reactor v.tags v.held in
        (
          with_reactor r c,
          [],
          rw (p, effects) refl,
          0,
          s,
          q,
          record {
            synced = Synced-with_reactor r v.synced;
            tags = [];
            held = empty;
            waiting = refl;
            inner = v.inner;
          },
          room,
          refl,
        )

  receive_use :
      (waker : ℕ) (us : List (Use T)) (bound cap j s : ℕ) (q : List T) (c : Channel T)
      → Carries c bound cap j s q
      → Room bound cap (length q - 1) j s us
      → OneUse (receives waker) us bound cap q c
  unfolding queue_run store_waker_channel
  receive_use waker us bound cap j s [] c v room =
      let e = (poll_recv_lem c v.synced waker).0 (ap (λ ch. ch.queue) v.inner) in
      (
        with_reactor (store_waker_channel c.reactor_tag waker c.reactor) c,
        [],
        rw e refl,
        j,
        s,
        [],
        record {
          synced = Synced-with_reactor _ v.synced;
          tags = v.tags;
          held = v.held;
          waiting = v.waiting;
          inner = v.inner;
        },
        room,
        refl,
      )
  receive_use waker us bound cap j s (x ∷ q) c v room =
      let (c', e, chan', reactor', v') =
        (poll_recv_lem c v.synced waker).1 x q (ap (λ ch. ch.queue) v.inner) in
      (
        c',
        x ∷ [],
        rw e refl,
        j,
        s,
        q,
        record {
          synced = v';
          tags = v.tags;
          held = rw reactor' v.held;
          waiting = v.waiting;
          inner = chan' ∙ ap {A = Mpsc T} (λ ch. record ch { queue = q }) v.inner;
        },
        subst (λ k. Room bound cap k j s us) (omega arith) room,
        refl,
      )

  pub use_once_lem :
      (u : Use T) (us : List (Use T)) (bound cap j s : ℕ) (q : List T) (c : Channel T)
      → Carries c bound cap j s q
      → Room bound cap (length q) j s (u ∷ us)
      → OneUse u us bound cap q c
  use_once_lem (sends x) us bound cap j s q c v (place, buffered, some_sender, room) =
      send_use us bound cap j s q c v x place buffered room
  use_once_lem (receives waker) us bound cap j s q c v room =
      receive_use waker us bound cap j s q c v room
  use_once_lem clones us bound cap j s q c v (some_sender, few, room) =
      clone_use us bound cap j s q c v some_sender few room
  use_once_lem drops us bound cap j s q c v (some_sender, room) =
      drop_use us bound cap j s q c v some_sender room
  use_once_lem turns us bound cap j s q c v room = turn_use us bound cap j s q c v room
