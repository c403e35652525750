-- ===== src/Fs/Wake.antt =====
-- src/fs/file.rs with src/reactor.rs: the task that opens a file is woken, unless the reactor has a
-- turn before the file is open.
use min_async_runtime.Base.{
  ◌++◌, length, ℕ, ◌<◌, ◌≡◌, ◌≢◌, refl, true, false, List, [], ◌∷◌, none, some, ==_refl, get_elem?,
  returned,
}
use min_async_runtime.Base.Monad.{M, on, effects}
use min_async_runtime.Base.Future.{pending, ready, Result}
use min_async_runtime.Mpsc.{Mpsc}
use min_async_runtime.Ring.Refine.{Holds}
use min_async_runtime.Reactor.{
  generate_reactor_tag, Reactor, store_waker_channel, handle_event, waker_token, with_buffer,
}
use min_async_runtime.Reactor.Drain.{wakers, handle_event-drain, register_reactor_tag_lem}
use min_async_runtime.Ring.{Ring}
use min_async_runtime.Pool.{Pool, work}
use min_async_runtime.Pool.Worker.{execute-work}
use min_async_runtime.Fs.{
  FileOperation, new_opening, open_hooch, FileJob, HoochFile, Opening, with_reactor, poll_file,
  run_thread, perform, hooch_file, take_handle,
}

module _ {P O H E : Type 0} where
  -- The reactor's thread handles its waker event.
  unfoldable pub reactor_turn : M (Opening P O H E) (List ℕ)
  reactor_turn = on (λ f. f.reactor) with_reactor (handle_event waker_token)

  -- What `open_hooch` leaves, with a place in the buffer of tags: the operation to do, and the tag
  -- registered behind the others. The first poll registers it again.
  pub open_hooch_lem :
      (operation : FileOperation O) (path : P) (counter cap : ℕ) (tags : List ℕ)
      (pool : Pool (FileJob P O)) (reactor : Reactor)
      → Holds reactor.reactor_tag_buffer cap tags
      → length tags < cap
      → (f : Opening P O H E) × ((open_hooch operation path counter pool reactor).0 ≡ returned tt f)
        × (f.reactor_tag ≡ counter)
        × (f.file_operation ≡ some operation)
        × (f.has_polled ≡ false)
        × Holds f.reactor.reactor_tag_buffer cap (tags ++ counter ∷ [])
  unfolding open_hooch generate_reactor_tag
  open_hooch_lem operation path counter cap tags pool reactor held room =
      let (b, e, held') = (register_reactor_tag_lem cap counter reactor tags held).0 room in
      (
        record (new_opening operation path counter pool reactor) {
          reactor = with_buffer b reactor;
        },
        rw (e, effects),
        refl,
        refl,
        refl,
        held',
      )

  module _ (create open_at : P → Result H E) (open_with : O → P → Result H E) (f : Opening P O H E)
      (operation : FileOperation O) (ch : Mpsc (FileJob P O)) (cap waker waker' : ℕ)
      (new : f.has_polled ≡ false) (fresh : f.file_handle ≡ none)
      (asked : f.file_operation ≡ some operation)
      (held : Holds f.reactor.reactor_tag_buffer cap (f.reactor_tag ∷ [])) (room : 1 < cap)
      (some_thread : f.pool.num_threads ≢ 0)
      (found : get_elem? f.pool.senders f.pool.cursor ≡ some ch) (alive : ch.receiver ≡ true)
      (idle : ch.queue ≡ []) (place : 0 < ch.bound) where
    job : FileJob P O
    job = record { operation = operation; at = f.path }

    result : Result (HoochFile H) E
    result = hooch_file create open_at open_with (perform create open_at open_with operation f.path)

    -- The future after its first poll, when the reactor has the buffer `b`, and the pool is `p`.
    started : Ring ℕ → Pool (FileJob P O) → Opening P O H E
    started b p = record f {
      file_operation = none;
      has_polled = true;
      pool = p;
      reactor = store_waker_channel f.reactor_tag waker (with_buffer b f.reactor);
    }

    twice : List ℕ
    twice = f.reactor_tag ∷ f.reactor_tag ∷ []

    twice-wakers :
        (r : Reactor)
        → wakers (store_waker_channel f.reactor_tag waker r).reactor_tags twice ≡ waker ∷ waker ∷ []
    unfolding twice wakers store_waker_channel
    twice-wakers r = rw (==_refl f.reactor_tag)

    start_lem :
        (b : Ring ℕ) × (p₁ p₂ : Pool (FileJob P O)) × (poll_file waker f
          ≡ returned pending (started b p₁))
        × (work (λ j. true) f.pool.cursor p₁ ≡ returned (some job) p₂)
        × Holds b cap twice
    unfolding poll_file started job twice
    start_lem =
        let (b, e, held') =
          (register_reactor_tag_lem cap f.reactor_tag f.reactor (f.reactor_tag ∷ []) held).0 room in
        let (p₁, p₂, q, q') =
          execute-work f.pool ch some_thread found (λ j. true) job refl alive idle place in
        (b, p₁, p₂, rw new (rw (e, effects) (rw (asked, effects) (rw (q, effects)))), q', held')

    -- A file whose tag is alone in the buffer, which has room, with an idle thread next in turn,
    -- and which is opened while the reactor has no turn: the first poll is pending, the thread
    -- opens the file and wakes the reactor, the reactor's turn wakes the task, twice, since its tag
    -- has been registered twice, and the next poll is ready with the file or the error.
    pub poll_file-run_thread :
        (f₁ f₂ f₃ f₄ : Opening P O H E) × (poll_file waker f ≡ returned pending f₁)
        × (run_thread create open_at open_with f.pool.cursor f₁ ≡ returned tt f₂)
        × (f₂.notified ≡ true)
        × (reactor_turn f₂ ≡ returned (waker ∷ waker ∷ []) f₃)
        × (poll_file waker' f₃
            ≡ returned
                (ready (
                  hooch_file create open_at open_with
                    (perform create open_at open_with operation f.path)))
                f₄)
    unfolding poll_file run_thread reactor_turn started job result twice store_waker_channel
    poll_file-run_thread =
        let (b, p₁, p₂, e, e', held') = start_lem in
        let f₁ = started b p₁ in
        let f₂ : Opening P O H E = record f₁ {
          pool = p₂;
          file_handle = some result;
          notified = true;
        } in
        let (r, t, _) = handle_event-drain cap f₂.reactor twice held' in
        let f₃ = with_reactor r f₂ in
        (
          f₁,
          f₂,
          f₃,
          record f₃ { file_handle = none },
          e,
          rw (e', effects),
          refl,
          rw (t, twice-wakers (with_buffer b f.reactor), effects),
          refl,
        )

    -- Under the same conditions, if the reactor has a turn after the first poll and before the file
    -- is open, that turn uses the tag up: the task is woken early, polls, and is pending; when the
    -- file is open the thread wakes the reactor, whose turn then wakes nobody, with the result in
    -- place.
    pub reactor_turn-loses :
        (f₁ f₂ f₃ f₄ : Opening P O H E) × (poll_file waker f ≡ returned pending f₁)
        × (reactor_turn f₁ ≡ returned (waker ∷ waker ∷ []) f₂)
        × (poll_file waker' f₂ ≡ returned pending f₂)
        × (run_thread create open_at open_with f.pool.cursor f₂ ≡ returned tt f₃)
        × (f₃.file_handle
            ≡ some (
                hooch_file create open_at open_with
                  (perform create open_at open_with operation f.path)))
        × (reactor_turn f₃ ≡ returned [] f₄)
    unfolding poll_file run_thread reactor_turn started job result twice store_waker_channel wakers
    reactor_turn-loses =
        let (b, p₁, p₂, e, e', held') = start_lem in
        let f₁ = started b p₁ in
        let (r₂, t, (empty, _, _)) = handle_event-drain cap f₁.reactor twice held' in
        let f₂ = with_reactor r₂ f₁ in
        let f₃ : Opening P O H E = record f₂ {
          pool = p₂;
          file_handle = some result;
          notified = true;
        } in
        let (r₄, t', _) = handle_event-drain cap r₂ [] empty in
        (
          f₁,
          f₂,
          f₃,
          with_reactor r₄ f₃,
          e,
          rw (t, twice-wakers (with_buffer b f.reactor), effects),
          rw (fresh, take_handle),
          rw (e', effects),
          refl,
          rw (t', effects),
        )
