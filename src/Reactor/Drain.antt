-- ===== src/Reactor/Drain.antt =====
-- src/reactor.rs: the waker event, which empties the buffer of pending tags.
use min_async_runtime.Base.{
  ℕ, zero, suc, ◌<◌, ◌≡◌, refl, List, [], ◌∷◌, ◌++◌, Option, length, returned, panicked, arith,
}
use min_async_runtime.Base.Monad.{effects}
use min_async_runtime.Ring
use min_async_runtime.Ring.Refine.{Holds, push-full, push_accepts, pop-empty, pop_takes}
use min_async_runtime.Reactor.{
  Reactor, TagType, tag_waker, with_buffer, drain_loop, drain, handle_event, waker_token,
  register_reactor_tag,
}

-- The wakers stored for a list of tags, in the order of the tags.
unfoldable pub wakers : (ℕ → Option TagType) → List ℕ → List ℕ
wakers tags [] = []
wakers tags (t ∷ ts) = tag_waker (tags t) ++ wakers tags ts

-- The reactor with an empty buffer of tags.
abbrev pub Drained : ℕ → Reactor → Reactor → Type 0
Drained cap r r' =
    Holds r'.reactor_tag_buffer cap []
    × (r'.reactor_tags ≡ r.reactor_tags)
    × (r'.statuses ≡ r.statuses)

drain_loop_lem :
    (fuel cap : ℕ) (r : Reactor) (ts : List ℕ)
    → Holds r.reactor_tag_buffer cap ts
    → length ts < fuel
    → (r' : Reactor) × (drain_loop fuel r ≡ returned (wakers r.reactor_tags ts) r')
      × Drained cap r r'
unfolding drain_loop wakers
drain_loop_lem zero cap r ts held f = elim f [ ]
drain_loop_lem (suc fuel) cap r [] held f = (r, rw (pop-empty held, effects), (held, refl, refl))
drain_loop_lem (suc fuel) cap r (t ∷ ts) held f =
    let (b, p, held') = pop_takes held in
    let (r', q, (empty, same, kept)) =
      drain_loop_lem fuel cap (with_buffer b r) ts held' (omega arith) in
    (r', rw (p, effects) (rw (q, effects)), (empty, same, kept))

-- The waker event empties a well-formed buffer of pending tags and wakes the stored waker of each,
-- in the order of registration and as often as registered; a tag with no waker is dropped.
pub handle_event-drain :
    (cap : ℕ) (r : Reactor) (ts : List ℕ)
    → Holds r.reactor_tag_buffer cap ts
    → (r' : Reactor) × (handle_event waker_token r ≡ returned (wakers r.reactor_tags ts) r')
      × Drained cap r r'
unfolding handle_event drain
handle_event-drain cap r ts held =
    drain_loop_lem (suc (Ring.len r.reactor_tag_buffer)) cap r ts held (omega (arith, held.counted))

-- Registering a tag queues it behind the others; with the buffer full it panics.
pub register_reactor_tag_lem :
    (cap tag : ℕ) (r : Reactor) (ts : List ℕ)
    → Holds r.reactor_tag_buffer cap ts
    → (length ts < cap
        → (b : Ring.Ring ℕ) × (register_reactor_tag tag r ≡ returned tt (with_buffer b r))
          × Holds b cap (ts ++ tag ∷ []))
      × (length ts ≡ cap → register_reactor_tag tag r ≡ panicked r)
unfolding register_reactor_tag
register_reactor_tag_lem cap tag r ts held = (
  λ room. let (b, p, held') = push_accepts tag held room in (b, rw (p, effects), held'),
  λ full. rw (push-full tag held full, effects),
)
