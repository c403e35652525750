-- ===== src/Channel/Tests.antt =====
-- src/sync/mpsc/bounded_channel.rs at a channel of two places.
use min_async_runtime.Base.{
  ℕ, ◌≡◌, refl, true, false, List, [], ◌∷◌, ◌++◌, none, length, returned, arith,
}
use min_async_runtime.Base.Future.{pending, ok}
use min_async_runtime.Ring.Refine.{Holds}
use min_async_runtime.Reactor.{Reactor}
use min_async_runtime.Channel.{Channel, send, drop, bounded_channel}
use min_async_runtime.Channel.Uses.{
  Use, sends, receives, clones, drops, turns, use_all, sent_values, queue_run,
}
use min_async_runtime.Channel.Fifo.{bounded_channel-use_all}
use min_async_runtime.Channel.Laws.{Synced}
use min_async_runtime.Channel.Close.{poll_recv_all, drop-poll_recv}
use min_async_runtime.Channel.Wake.{
  recv_step-loses, reactor_turn, recv_step, check_count, store_waker, recv_returned,
}

abbrev reactor : Reactor
reactor = record {
  reactor_tag_buffer = record { buffer = none ∷ none ∷ none ∷ []; start = 1; end = 1; count = 0 };
  reactor_tags = λ t. none;
  statuses = λ t. none;
}

abbrev channel_of : List ℕ → ℕ → Channel ℕ
channel_of q senders = record {
  chan = record { queue = q; bound = 2; senders = senders; receiver = true };
  queue_cnt = length q;
  clone_count = senders;
  reactor_tag = 3;
  reactor = reactor;
  notified = false;
}

-- One value and one sender.
abbrev one : Channel ℕ
one = channel_of (40 ∷ []) 1

abbrev vacant : Channel ℕ
vacant = channel_of [] 1

buffer-Holds : Holds reactor.reactor_tag_buffer 3 []
buffer-Holds = record {
  sized = refl;
  small = omega arith;
  start_in = omega arith;
  fits = omega arith;
  counted = refl;
  ends = refl;
  held = refl;
}

one-Synced : Synced one
one-Synced = record {
  counted = refl;
  small = omega arith;
  fits = omega arith;
  cloned = refl;
  few = omega arith;
}

vacant-Synced : Synced vacant
vacant-Synced = record {
  counted = refl;
  small = omega arith;
  fits = omega arith;
  cloned = refl;
  few = omega arith;
}

closed-Synced : Synced (channel_of [] 0)
closed-Synced = record {
  counted = refl;
  small = omega arith;
  fits = omega arith;
  cloned = refl;
  few = omega arith;
}

drop-poll_recv_example :
    ((drop vacant).chan.senders ≡ 0)
    × ((drop vacant).reactor ≡ reactor)
    × ((poll_recv_all (9 ∷ 8 ∷ 9 ∷ []) (drop vacant)).0 ≡ pending ∷ pending ∷ pending ∷ [])
    × ((poll_recv_all (9 ∷ 8 ∷ 9 ∷ []) (drop vacant)).1.chan ≡ (drop vacant).chan)
    × ((poll_recv_all (9 ∷ 8 ∷ 9 ∷ []) (drop vacant)).1.reactor.reactor_tag_buffer
        ≡ reactor.reactor_tag_buffer)
drop-poll_recv_example = drop-poll_recv vacant vacant-Synced (9 ∷ 8 ∷ 9 ∷ []) refl refl

recv_step-loses_example :
    (c₁ c₂ c₃ c₄ : Channel ℕ) × (recv_step (check_count 9) vacant ≡ (store_waker 9, vacant))
    × (send 41 vacant ≡ returned (ok tt) c₁)
    × (reactor_turn c₁ ≡ returned [] c₂)
    × (recv_step (store_waker 9) c₂ ≡ (recv_returned pending, c₃))
    × (c₃.chan.queue ≡ 41 ∷ [])
    × (reactor_turn c₃ ≡ returned [] c₄)
recv_step-loses_example =
    recv_step-loses vacant vacant-Synced 3 41 9 buffer-Holds (omega arith) refl refl (omega arith)
      refl

-- Two values through a channel of one place, with a turn of the reactor and a second sender.
abbrev uses : List (Use ℕ)
uses = clones ∷ sends 40 ∷ turns ∷ receives 9 ∷ receives 9 ∷ drops ∷ sends 41 ∷ receives 9 ∷ []

bounded_channel-use_all_example :
    (c' : Channel ℕ) × (use_all uses (bounded_channel 1 3 reactor).0
      ≡ returned (queue_run [] uses).0 c')
    × (c'.chan.queue ≡ (queue_run [] uses).1)
    × ((queue_run [] uses).0 ++ c'.chan.queue ≡ sent_values uses)
bounded_channel-use_all_example =
    bounded_channel-use_all uses 1 3 3 reactor (omega arith) buffer-Holds (
      omega arith,
      omega arith,
      (
        omega arith,
        omega arith,
        omega arith,
        (omega arith, (omega arith, omega arith, omega arith, tt)),
      ),
    )

queue_run_test : queue_run [] uses ≡ (40 ∷ 41 ∷ [], [])
unfolding queue_run
queue_run_test = refl
