-- ===== src/Reactor/Tests.antt =====
-- src/reactor.rs at a small reactor: token 4 is awaited by waker 9, and tags 3 and 5 are pending.
use min_async_runtime.Base.{◌≡◌, refl, [], ◌∷◌, none, some, ◌==◌, if◌then◌else◌, returned, arith}
use min_async_runtime.Ring.{pop}
use min_async_runtime.Ring.Refine.{Holds}
use min_async_runtime.Reactor.{
  Reactor, awaited, channel, handle_event, handle_events, waker_token, token_event, drain,
  drain_loop, pop_tag,
}
use min_async_runtime.Reactor.Drain.{wakers, Drained, handle_event-drain}

abbrev reactor : Reactor
reactor = record {
  reactor_tag_buffer = record {
    buffer = some 3 ∷ some 5 ∷ none ∷ [];
    start = 0;
    end = 2;
    count = 2;
  };
  reactor_tags = λ t. if t == 3 then some (channel 7) else none;
  statuses = λ t. if t == 4 then some (awaited 9) else none;
}

buffer-Holds : Holds reactor.reactor_tag_buffer 3 (3 ∷ 5 ∷ [])
buffer-Holds = record {
  sized = refl;
  small = omega arith;
  start_in = omega arith;
  fits = omega arith;
  counted = refl;
  ends = refl;
  held = refl;
}

-- A socket event, then a waker event: waker 9, then the waker of tag 3.
handle_events_test : (r : Reactor) × (handle_events (4 ∷ 0 ∷ []) reactor ≡ returned (9 ∷ 7 ∷ []) r)
unfolding handle_events handle_event token_event drain drain_loop pop_tag pop
handle_events_test = (_, refl)

handle_event-drain_example :
    (r' : Reactor) × (handle_event waker_token reactor ≡ returned (7 ∷ []) r')
    × Drained 3 reactor r'
unfolding wakers
handle_event-drain_example = handle_event-drain 3 reactor (3 ∷ 5 ∷ []) buffer-Holds
