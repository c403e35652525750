-- ===== src/Spawner/Tests.antt =====
-- src/spawner.rs at a handle on an empty channel of one place.
use min_async_runtime.Base.{
  Bool, zero, suc, ℕ, ◌≡◌, refl, false, List, [], ◌∷◌, none, length, replicate, returned, panicked,
  arith,
}
use min_async_runtime.Base.Future.{pending, ready, ok}
use min_async_runtime.Mpsc.{sync_channel}
use min_async_runtime.Ring.{Ring}
use min_async_runtime.Ring.Refine.{Holds}
use min_async_runtime.Reactor.{Reactor}
use min_async_runtime.Channel.{Channel, drop}
use min_async_runtime.Channel.Wake.{reactor_turn}
use min_async_runtime.Channel.{bounded_channel}
use min_async_runtime.Spawner.Boxed.{
  Boxed, handle_in_boxes, channel_in_boxes, finish_boxed, poll_boxed, onto, handle_in_boxes_lem,
}
use min_async_runtime.Spawner.{
  handle_of, JoinHandle, unset, with_rx, finish, unwinds, wrapped_future, poll,
}
use min_async_runtime.Spawner.Join.{Open, poll_all, finish-joins, wrapped_future-never_joins}

abbrev no_places : Ring ℕ
no_places = record { buffer = none ∷ none ∷ none ∷ []; start = 1; end = 1; count = 0 }

no_places-Holds : Holds no_places 3 []
no_places-Holds = record {
  sized = refl;
  small = omega arith;
  start_in = omega arith;
  fits = omega arith;
  counted = refl;
  ends = refl;
  held = refl;
}

abbrev reactor : Reactor
reactor = record { reactor_tag_buffer = no_places; reactor_tags = λ t. none; statuses = λ t. none }

abbrev handle : JoinHandle ℕ
handle = record {
  rx = record {
    chan = sync_channel 1;
    queue_cnt = 0;
    clone_count = 1;
    reactor_tag = 3;
    reactor = reactor;
    notified = false;
  };
  has_awaited = false;
  recv_fut = unset;
  task = 5;
}

handle-Open : Open handle 3
handle-Open = record {
  synced = record {
    counted = refl;
    small = omega arith;
    fits = omega arith;
    cloned = refl;
    few = omega arith;
  };
  held = no_places-Holds;
  room = omega arith;
  alive = refl;
  vacant = refl;
  place = omega arith;
  sender = omega arith;
  unfinished = λ h. cc;
}

finish-joins_example :
    (jh₁ jh₄ : JoinHandle ℕ) × (c₂ c₃ : Channel ℕ) × (poll 9 handle ≡ returned pending jh₁)
    × (finish 40 jh₁.rx ≡ returned tt c₂)
    × (reactor_turn c₂ ≡ returned (9 ∷ []) c₃)
    × (poll 9 (with_rx c₃ jh₁) ≡ returned (ready (ok 40)) jh₄)
    × (poll 9 jh₄ ≡ panicked jh₄)
finish-joins_example = finish-joins 9 40 handle 3 handle-Open

wrapped_future-never_joins_example :
    (wrapped_future {F = ℕ} unwinds handle.rx ≡ panicked (drop handle.rx))
    × ((ws : List ℕ)
        → (jh' : JoinHandle ℕ) × (poll_all ws (with_rx (drop handle.rx) handle)
            ≡ returned (replicate (length ws) pending) jh'))
wrapped_future-never_joins_example = wrapped_future-never_joins handle (λ h. cc) refl

-- Type 0 is that of the numbers, and the others are `Bool`.
abbrev Types : ℕ → Type 0
Types zero = ℕ
Types (suc t) = Bool

handle_in_boxes_lem_example :
    (handle_of 5 (bounded_channel {T = Boxed Types} 1 3 reactor).0
      ≡ handle_in_boxes Types 0 (handle_of 5 (bounded_channel {T = ℕ} 1 3 reactor).0))
    × (finish_boxed Types 0 40 (channel_in_boxes Types 0 handle.rx)
        ≡ onto Types (channel_in_boxes Types 0) (finish {T = ℕ} 40 handle.rx))
    × (poll_boxed Types 0 9 (handle_in_boxes Types 0 handle)
        ≡ onto Types (handle_in_boxes Types 0) (poll 9 handle))
handle_in_boxes_lem_example = handle_in_boxes_lem Types 0 5 1 3 9 40 reactor handle
