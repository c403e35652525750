-- ===== src/Net/Connect.antt =====
-- src/net/tcp/listener.rs and src/net/tcp/stream.rs: a `bind` or a `connect` from its first poll to
-- the end.
use min_async_runtime.Base.{
  ℕ, ◌<◌, ◌≡◌, ◌≢◌, refl, true, false, [], ◌∷◌, ◌++◌, Option, none, some, length, get_elem?,
  returned, panicked, blocked,
}
use min_async_runtime.Base.Monad.{effects}
use min_async_runtime.Base.Future.{pending, ready}
use min_async_runtime.Mpsc.{Mpsc}
use min_async_runtime.Pool.Worker.{execute-work, execute_fails}
use min_async_runtime.Net.Offload.{
  Job, stores, wakes, ended, Offload, poll_offload, take_job, job_step, run_thread, take_state,
}

module _ {D A R : Type 0} (resolve : D → Option A) (o : Offload D A R) (waker : ℕ)
    (ch : Mpsc (Job A)) (new : o.has_polled ≡ false) (some_thread : o.pool.num_threads ≢ 0)
    (found : get_elem? o.pool.senders o.pool.cursor ≡ some ch) where
  -- The first poll of a future whose address resolves, with an idle thread next in turn, hands the
  -- call to that thread and is pending; so is a poll before the thread takes the job, and one after
  -- that and before it stores the result. The thread stores the result first, and has then woken
  -- nobody: a poll that comes now is ready with it already. Only then it wakes the task of the first
  -- poll, and a poll after that is ready with the result, if none was before. So a poll that is
  -- pending comes before the store, and the wake-up after it: it is not lost.
  pub poll_offload-run_thread :
      (result : A → R) (waker' : ℕ) (a : A)
      → resolve o.addr ≡ some a
      → o.state ≡ none
      → ch.receiver ≡ true
      → ch.queue ≡ []
      → 0 < ch.bound
      → (job : Job A) × (o₁ o₂ o₃ o₄ : Offload D A R) × (poll_offload resolve waker o
          ≡ returned pending o₁)
        × (poll_offload resolve waker' o₁ ≡ returned pending o₁)
        × (take_job o.pool.cursor o₁ ≡ returned (stores job) o₂)
        × (poll_offload resolve waker' o₂ ≡ returned pending o₂)
        × (job_step result (stores job) o₂ ≡ returned (wakes job) o₃)
        × (o₃.woken ≡ o.woken)
        × (poll_offload resolve waker' o₃
            ≡ returned (ready (result a)) (record o₃ { state = none }))
        × (job_step result (wakes job) o₃ ≡ returned ended o₄)
        × (o₄.woken ≡ o.woken ++ waker ∷ [])
        × (poll_offload resolve waker' o₄
            ≡ returned (ready (result a)) (record o₄ { state = none }))
        × (run_thread result o.pool.cursor o₁ ≡ returned tt o₄)
  unfolding poll_offload run_thread take_job job_step
  poll_offload-run_thread result waker' a resolved fresh alive idle place =
      let job : Job A = record { socket_addr = a; waker = waker } in
      let (p₁, p₂, e, e') =
        execute-work o.pool ch some_thread found (λ j. true) job refl alive idle place in
      let o₁ : Offload D A R = record o { has_polled = true; pool = p₁ } in
      let o₂ : Offload D A R = record o₁ { pool = p₂ } in
      let o₃ : Offload D A R = record o₂ { state = some (result a) } in
      (
        job,
        o₁,
        o₂,
        o₃,
        record o₃ { woken = o.woken ++ waker ∷ [] },
        rw new (rw (resolved, effects) (rw (e, effects))),
        rw (fresh, take_state),
        rw (e', effects),
        rw (fresh, take_state),
        refl,
        refl,
        refl,
        refl,
        refl,
        refl,
        rw (e', effects),
      )

  -- The first poll of a future, in a pool of some threads, panics if the address does not resolve,
  -- and if the thread next in turn has died.
  -- If that thread's queue is full, the poll does not return pending: it blocks the executor.
  pub poll_offload_fails :
      (resolve o.addr ≡ none
        → poll_offload resolve waker o ≡ panicked (record o { has_polled = true }))
      × ((a : A)
          → resolve o.addr ≡ some a
          → (ch.receiver ≡ false
              → (o' : Offload D A R) × (poll_offload resolve waker o ≡ panicked o'))
            × (ch.receiver ≡ true
                → length ch.queue ≡ ch.bound
                → poll_offload resolve waker o ≡ blocked))
  unfolding poll_offload
  poll_offload_fails = (
    λ unresolved. rw new (rw (unresolved, effects)),
    λ a resolved.
        let fails =
          execute_fails o.pool ch some_thread found (record { socket_addr = a; waker = waker }) in
        (
          λ dead.
              let (p₁, e) = fails.0 dead in
              (
                record o { has_polled = true; pool = p₁ },
                rw new (rw (resolved, effects) (rw (e, effects))),
              ),
          λ alive at_bound. rw new (rw (resolved, effects) (rw (fails.1 alive at_bound, effects))),
        ),
  )
