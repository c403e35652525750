-- ===== src/Runtime/Guard.antt =====
-- src/runtime.rs: one runtime for a thread, and what is left of it after a panic.
use min_async_runtime.Base.{
  ℕ, ◌<◌, ◌≡◌, refl, true, false, List, [], ◌∷◌, ◌==◌, if◌then◌else◌, none, some, Bool, returned,
  panicked,
}
use min_async_runtime.Base.Monad.{effects}
use min_async_runtime.Mpsc.{empty, hung_up, sync_channel}
use min_async_runtime.Manager.{Manager, create, max_waiting, register_or_execute_non_blocking_task}
use min_async_runtime.Manager.System.{boot}
use min_async_runtime.Manager.Boot.{boot-Reach-Inv}
use min_async_runtime.Pool.{init}
use min_async_runtime.Runtime.{
  Runtime, Thread, build, num_workers, run_blocking, handle, set_runtime_guard, exit_runtime_guard,
  get_or_start, with_manager, get_manager, after_check, unwrap_runtime,
}

module _ {J : Type 0} where
  -- On a thread that has no runtime and no manager yet, for fewer than `max_waiting` workers,
  -- `build` returns one with as many workers as asked for, all of them registered with the manager,
  -- and `num_workers` counts them. A second `build` panics.
  pub build_lem :
      (n : ℕ) (t : Thread J)
      → n < max_waiting
      → t.guard ≡ false
      → t.runtime ≡ none
      → t.manager ≡ none
      → (t' : Thread J) × (m : Manager) × (build (record { num_workers = n }) t
          ≡ returned (record { handles = n; panic_rx = sync_channel 1 }) t')
        × (num_workers t' ≡ returned n t')
        × (t'.runtime ≡ some (record { handles = n; panic_rx = sync_channel 1 }))
        × (t'.manager ≡ some m)
        × (boot n 0 create ≡ returned tt m)
        × ((k : ℕ) → build (record { num_workers = k }) t' ≡ panicked t')
        × (t'.pool ≡ init 1 t.pool)
  unfolding build num_workers handle set_runtime_guard
  build_lem n t small free vacant unmanaged =
      let (m, p, _) = boot-Reach-Inv n small in
      let rt : Runtime = record { handles = n; panic_rx = sync_channel 1 } in
      (
        record t { guard = true; runtime = some rt; manager = some m; pool = init 1 t.pool },
        m,
        simp (free, vacant, unmanaged, p, get_or_start, get_manager, effects),
        refl,
        refl,
        refl,
        p,
        λ k. refl,
        refl,
      )

  -- On a thread with a runtime, whose manager accepts the blocking task: if that task panics, its
  -- sender is dropped and `run_blocking` panics with the guard still set: whoever catches that panic
  -- cannot build a runtime on the thread.
  pub run_blocking-fails :
      {T : Type 0} (task k : ℕ) (reports : List (Unit {0})) (rt : Runtime) (m m' : Manager)
      (t : Thread J)
      → t.guard ≡ true
      → t.runtime ≡ some rt
      → t.manager ≡ some m
      → register_or_execute_non_blocking_task (λ t. false) task m ≡ returned tt m'
      → (t' : Thread J) × (run_blocking {T = T} task none reports t ≡ panicked t')
        × (build (record { num_workers = k }) t' ≡ panicked t')
  unfolding run_blocking handle build set_runtime_guard
  run_blocking-fails task k reports rt m m' t set there managed accepted = (
    with_manager m' t,
    simp (there, managed, accepted, get_manager, unwrap_runtime, effects),
    rw (set, effects),
  )

  -- No report: the channel is empty, or its senders are gone.
  after_check_quiet :
      {T : Type 0} (b : Bool) (res : T) (rt : Runtime) (t : Thread J)
      → after_check res (if b then hung_up else empty) rt t ≡ returned res t
  after_check_quiet true res rt t = refl
  after_check_quiet false res rt t = refl

  -- On a thread with a runtime, whose manager accepts the blocking task: if that task returns and
  -- another task's panic has been reported, `run_blocking` panics with the guard cleared: a `build`
  -- after that returns the old runtime, with the old number of workers whatever is asked for. With
  -- no report it returns the task's result.
  pub run_blocking_lem :
      {T : Type 0} (task k : ℕ) (res : T) (rt : Runtime) (m m' : Manager) (t : Thread J)
      → t.runtime ≡ some rt
      → t.manager ≡ some m
      → register_or_execute_non_blocking_task (λ t. false) task m ≡ returned tt m'
      → (run_blocking task (some res) [] t ≡ returned res (with_manager m' t))
        × ((t₁ t₂ : Thread J) × (rt' : Runtime) × (run_blocking task (some res) (tt ∷ []) t
              ≡ panicked t₁)
            × (build (record { num_workers = k }) t₁ ≡ returned rt' t₂)
            × (num_workers t₂ ≡ returned rt.handles t₂))
  unfolding run_blocking handle build set_runtime_guard exit_runtime_guard num_workers
  run_blocking_lem task k res rt m m' t there managed accepted =
      let rt' = record rt { panic_rx = record rt.panic_rx { queue = [] } } in
      let t₁ : Thread J = record t { guard = false; runtime = some rt'; manager = some m' } in
      (
        simp (there, managed, accepted, get_manager, unwrap_runtime, effects)
            (after_check_quiet (rt.panic_rx.senders == 0) res rt
              (record t { runtime = some rt; manager = some m' })),
        (
          t₁,
          record t₁ { guard = true },
          rt',
          simp (there, managed, accepted, get_manager, unwrap_runtime, effects),
          refl,
          refl,
        ),
      )

  -- The sender of the blocking task is gone.
  pub run_blocking-lost :
      {T : Type 0} (task : ℕ) (reports : List (Unit {0})) (rt : Runtime) (m m' : Manager)
      (t : Thread J)
      → t.runtime ≡ some rt
      → t.manager ≡ some m
      → register_or_execute_non_blocking_task (λ t. false) task m ≡ returned tt m'
      → run_blocking {T = T} task none reports t ≡ panicked (with_manager m' t)
  unfolding run_blocking handle
  run_blocking-lost task reports rt m m' t there managed accepted =
      simp (there, managed, accepted, get_manager, unwrap_runtime, effects)

  -- The three ends of `run_blocking` on a thread that has built its runtime, whose manager accepts
  -- the blocking task. The task returns and no panic has been reported: its result is returned. It
  -- returns, but another task's panic has been reported: `run_blocking` panics with the guard
  -- cleared, and `build` then returns the old runtime, with the old number of workers whatever is
  -- asked for. The task itself panics, whatever has been reported: `run_blocking` panics with the
  -- guard still set, and `build` then panics.
  pub run_blocking-build :
      {T : Type 0} (task k : ℕ) (res : T) (rt : Runtime) (m m' : Manager) (t : Thread J)
      → t.guard ≡ true
      → t.runtime ≡ some rt
      → t.manager ≡ some m
      → register_or_execute_non_blocking_task (λ t. false) task m ≡ returned tt m'
      → (run_blocking task (some res) [] t ≡ returned res (with_manager m' t))
        × ((t₁ t₂ : Thread J) × (rt' : Runtime) × (run_blocking task (some res) (tt ∷ []) t
              ≡ panicked t₁)
            × (build (record { num_workers = k }) t₁ ≡ returned rt' t₂)
            × (num_workers t₂ ≡ returned rt.handles t₂))
        × ((reports : List (Unit {0}))
            → (t' : Thread J) × (run_blocking {T = T} task none reports t ≡ panicked t')
              × (build (record { num_workers = k }) t' ≡ panicked t'))
  run_blocking-build task k res rt m m' t guarded there managed accepted =
      let (fine, reported) = run_blocking_lem task k res rt m m' t there managed accepted in
      (
        fine,
        reported,
        λ reports. run_blocking-fails task k reports rt m m' t guarded there managed accepted,
      )
