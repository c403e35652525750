-- ===== src/Reactor.antt =====
-- src/reactor.rs: `Reactor`. A `Waker` is the number of the task that it wakes, so that `will_wake`
-- is equality; the wakers that a call wakes are part of its result, in order. `mio` is the source
-- of events: an event is its token. `Reactor::get`, which makes the singleton and starts its
-- thread, is the initial state.
pub mod Batch
pub mod Events
pub mod Drain
mod Tests
use min_async_runtime.Base.{
  ℕ, zero, suc, ◌*◌, Bool, true, false, List, [], ◌∷◌, ◌++◌, Option, none, some, ◌==◌,
  if◌then◌else◌, add_usize, returned, exhausted,
}
use min_async_runtime.Base.Monad.{M, pure, ◌>>=◌, ◌>>◌, panic, get, modify, access, on}
use min_async_runtime.Base.Future.{Poll, pending, ready}
use min_async_runtime.Ring.{Ring, PushStatus, pushed, buffer_full}
use min_async_runtime.Ring

-- `executor::Status`
pub data Status : Type 0 where
  awaited : ℕ → Status
  happened : Status

pub data TagType : Type 0 where
  channel : ℕ → TagType

-- The registry and the `mio` waker are handles on `mio`, and have no state here.
pub record Reactor : Type 0 where
  pub reactor_tag_buffer : Ring ℕ
  pub reactor_tags : ℕ → Option TagType
  pub statuses : ℕ → Option Status

abbrev pub waker_token : ℕ
waker_token = 0

abbrev pub tag_capacity : ℕ
tag_capacity = 1024 * 1024

unfoldable pub initial : Reactor
initial = record {
  reactor_tag_buffer = Ring.new tag_capacity;
  reactor_tags = λ _. none;
  statuses = λ _. none;
}

-- `HashMap::insert` and `HashMap::remove`
abbrev pub insert {ℓ} : {A : Type ℓ} → (ℕ → Option A) → ℕ → A → ℕ → Option A
insert f k v j = if j == k then some v else f j

abbrev pub remove {ℓ} : {A : Type ℓ} → (ℕ → Option A) → ℕ → ℕ → Option A
remove f k j = if j == k then none else f j

-- `generate_reactor_tag` on its counter, which starts at 0.
unfoldable pub generate_reactor_tag : ℕ → ℕ × ℕ
generate_reactor_tag counter = (counter, add_usize counter 1)

-- `unique_token` on its counter, which starts at 1.
unfoldable pub unique_token : ℕ → ℕ × ℕ
unique_token counter = (counter, add_usize counter 1)

unfoldable pub status_store : ℕ → ℕ → Reactor → Reactor
status_store token waker r = record r { statuses = insert r.statuses token (awaited waker) }

abbrev pub is_happened : Option Status → Bool
is_happened none = false
is_happened (some (awaited w)) = false
is_happened (some happened) = true

unfoldable pub has_token_progressed : ℕ → Reactor → Bool
has_token_progressed token r = is_happened (r.statuses token)

unfoldable pub store_waker_channel : ℕ → ℕ → Reactor → Reactor
store_waker_channel tag waker r = record r {
  reactor_tags = insert r.reactor_tags tag (channel waker);
}

unfoldable pub remove_tag : ℕ → Reactor → Reactor
remove_tag tag r = record r { reactor_tags = remove r.reactor_tags tag }

abbrev pub with_buffer : Ring ℕ → Reactor → Reactor
with_buffer b r = record r { reactor_tag_buffer = b }

abbrev pub unwrap_push : PushStatus → M Reactor (Unit {0})
unwrap_push pushed = pure tt
unwrap_push buffer_full = panic

unfoldable pub register_reactor_tag : ℕ → M Reactor (Unit {0})
register_reactor_tag tag = do
  s ← on (λ r. r.reactor_tag_buffer) with_buffer (access (λ b. Ring.push b tag))
  unwrap_push s

-- `poll` by the entry that it finds.
abbrev pub poll_entry : ℕ → ℕ → Option Status → Reactor → Poll (Unit {0}) × Reactor
poll_entry token waker none r =
    (pending, record r { statuses = insert r.statuses token (awaited waker) })
poll_entry token waker (some (awaited old)) r = (
  pending,
  if old == waker then r else record r { statuses = insert r.statuses token (awaited waker) },
)
poll_entry token waker (some happened) r =
    (ready tt, record r { statuses = remove r.statuses token })

unfoldable pub poll : ℕ → ℕ → Reactor → Poll (Unit {0}) × Reactor
poll token waker r = poll_entry token waker (r.statuses token) r

-- The waker that a tag has stored, if any.
abbrev pub tag_waker : Option TagType → List ℕ
tag_waker none = []
tag_waker (some (channel waker)) = waker ∷ []

pop_tag : M Reactor (Option ℕ)
pop_tag = on (λ r. r.reactor_tag_buffer) with_buffer (access Ring.pop)

-- The `while let` loop of `run`, on fuel, with the wakers that it wakes.
pub drain_loop : ℕ → M Reactor (List ℕ)
unfolding pop_tag
drain_loop zero r = exhausted
drain_loop (suc fuel) r =
    (do
      next ← pop_tag
      now ← get
      let again = drain_loop fuel
      elim next [
        | none ↦ pure []
        | some tag ↦ do rest ← again; pure (tag_waker (now.reactor_tags tag) ++ rest)
      ])
      r

-- One round for each pending tag, and one to find that none is left.
pub drain : M Reactor (List ℕ)
unfolding drain_loop
drain r = drain_loop (suc (Ring.len r.reactor_tag_buffer)) r

abbrev pub status_waker : Option Status → List ℕ
status_waker none = []
status_waker (some (awaited waker)) = waker ∷ []
status_waker (some happened) = []

unfoldable pub token_event : ℕ → M Reactor (List ℕ)
token_event token r =
    returned (status_waker (r.statuses token))
      (record r { statuses = insert r.statuses token happened })

-- What `run` does for one event.
pub handle_event : ℕ → M Reactor (List ℕ)
unfolding drain token_event
handle_event token = if token == waker_token then drain else token_event token

-- `run`, for one batch of events.
pub handle_events : List ℕ → M Reactor (List ℕ)
unfolding handle_event
handle_events [] = pure []
handle_events (token ∷ tokens) = do
  woken ← handle_event token
  rest ← handle_events tokens
  pure (woken ++ rest)
