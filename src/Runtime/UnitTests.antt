-- ===== src/Runtime/UnitTests.antt =====
-- src/runtime.rs: tests of its module `tests`. A test starts on a fresh thread; that it should panic
-- is stated of the thread it leaves.
use min_async_runtime.Base.{
  ℕ, ◌+◌, ◌≡◌, refl, true, false, Bool, [], Option, none, some, ◌==◌, returned, panicked, arith,
}
use min_async_runtime.Base.Monad.{M, pure, ◌>>=◌, ◌>>◌, modify, assert, effects}
use min_async_runtime.Manager.{Manager, create}
use min_async_runtime.Executor.{Poll, ready, Host}
use min_async_runtime.Executor.Drive.{last}
use min_async_runtime.Mpsc.{sync_channel}
use min_async_runtime.Runtime.{
  Runtime, Thread, handle, new_builder, with_num_workers, build, num_workers, run_blocking,
  with_manager,
}
use min_async_runtime.Runtime.Guard.{build_lem}
use min_async_runtime.Runtime.Worker.{build-start_worker}
use min_async_runtime.Runtime.Workers.{Rests, build-Rests}
use min_async_runtime.Runtime.Blocking.{run_blocking-rounds}

abbrev pub fresh : Thread ℕ
fresh = record { guard = false; runtime = none; manager = none; pool = none }

abbrev test_runtime_builder_default : Bool
test_runtime_builder_default = new_builder.num_workers == 1

abbrev test_runtime_builder_num_workers : Bool
test_runtime_builder_num_workers = (with_num_workers 2 new_builder).num_workers == 2

abbrev test_runtime_num_workers : M (Thread ℕ) (Unit {0})
test_runtime_num_workers = do
  build (with_num_workers 4 new_builder)
  n ← num_workers
  assert (n == 4)

-- What the worker sends back is an argument.
abbrev test_run_blocking_return : Option ℕ → M (Thread ℕ) (Unit {0})
test_run_blocking_return sent = do
  build new_builder
  res ← run_blocking 0 sent []
  assert (res == 2)

-- What the worker sends back for the two tasks, and the manager it leaves after the first, are
-- arguments.
abbrev test_obtaining_multiple_handles_from_same_runtime :
    Option ℕ → Manager → Option ℕ → M (Thread ℕ) (Unit {0})
test_obtaining_multiple_handles_from_same_runtime sent left sent_next = do
  build new_builder
  r ← run_blocking 0 sent []
  modify (with_manager left)
  assert (r == 1)
  handle
  r_next ← run_blocking 1 sent_next []
  assert (r_next == 2)

-- The task of the test, on the thread of its executor.
abbrev test_handle_nested_panicking_task : M (Thread ℕ) (Unit {0})
test_handle_nested_panicking_task = do build new_builder; pure tt

abbrev test_handle_scoped_panicking_task : M (Thread ℕ) (Unit {0})
test_handle_scoped_panicking_task = do build new_builder; build new_builder; pure tt

builder_passes : test_runtime_builder_default ≡ true
builder_passes = refl

builder_num_workers_passes : test_runtime_builder_num_workers ≡ true
builder_num_workers_passes = refl

num_workers_passes : (t : Thread ℕ) × (test_runtime_num_workers fresh ≡ returned tt t)
num_workers_passes =
    let (t, _, built, counted, _, _, _, _, _) = build_lem 4 fresh (omega arith) refl refl refl in
    (t, rw (built, effects) (rw (counted, effects) refl))

scoped_panics : (t : Thread ℕ) × (test_handle_scoped_panicking_task fresh ≡ panicked t)
scoped_panics =
    let (t, _, built, _, _, _, _, panics, _) = build_lem 1 fresh (omega arith) refl refl refl in
    (t, rw (built, effects) (rw (panics 1, effects) refl))

-- On the thread of the executor of a runtime that `build` has returned.
nested_panics : (w : Thread ℕ) × (test_handle_nested_panicking_task w ≡ panicked w)
nested_panics =
    let (_, _, _, _, _, w, _, _, _, _, _, _, _, _, _, _, _, panics) =
      build-start_worker 1 0 (record { thread = fresh; tm_txs = []; hp_txs = []; runtime_txs = [] })
        fresh (omega arith) (omega arith) refl refl refl refl in
    (w.thread, rw (panics 1, effects) refl)

-- `async move { ctr + 1 }`, which is ready at once.
abbrev pub at_once : ℕ → Poll ℕ
at_once ctr = record { wakes = []; polled = ready }

abbrev pub no_tasks : Host ℕ
no_tasks = record {
  tasks = λ t. record { future = none; poisoned = false; task_tag = t; abort = false };
  manager = create;
  panic_tx = sync_channel 1;
}

-- A future that is ready at once with `value`, on a runtime whose worker is idle.
pub answered :
    {T : Type 0} (value : T) (task : ℕ) (rt : Runtime) (t : Thread ℕ) (m : Manager)
    → t.runtime ≡ some rt
    → t.manager ≡ some m
    → Rests 1 m
    → (m₁ m₂ : Manager) × (run_blocking task (some value) [] t ≡ returned value (with_manager m₁ t))
      × Rests 1 m₂
answered value task rt t m has_runtime managed rests =
    let (_, m₁, c, _, runs, _, _, _, rests₂, _, _) =
      run_blocking-rounds at_once (λ _. value) t 1 task 0 0 1 1 (record no_tasks { manager = m }) rt
        (omega arith) has_runtime managed rests (last refl) in
    (m₁, c.host.manager, runs, rests₂)

-- The worker sends `1 + 1`.
run_blocking_return_passes :
    (t : Thread ℕ) × (test_run_blocking_return (some (1 + 1)) fresh ≡ returned tt t)
run_blocking_return_passes =
    let (rt, t, m, built, has_runtime, managed, rests) =
      build-Rests 1 fresh (omega arith) refl refl refl in
    let (m₁, _, runs, _) = answered {T = ℕ} 2 0 rt t m has_runtime managed rests in
    (with_manager m₁ t, rw (built, effects) (rw (runs, effects) refl))

handle_lem : (rt : Runtime) (t : Thread ℕ) → t.runtime ≡ some rt → handle t ≡ returned rt t
unfolding handle
handle_lem rt t has_runtime = rw (has_runtime, effects) refl

two_calls :
    (rt : Runtime) (t : Thread ℕ) (m₁ left m₂ : Manager)
    → build new_builder fresh ≡ returned rt t
    → t.runtime ≡ some rt
    → run_blocking {T = ℕ} 0 (some 1) [] t ≡ returned 1 (with_manager m₁ t)
    → run_blocking {T = ℕ} 1 (some 2) [] (with_manager left t)
      ≡ returned 2 (with_manager m₂ (with_manager left t))
    → test_obtaining_multiple_handles_from_same_runtime (some 1) left (some 2) fresh
      ≡ returned tt (with_manager m₂ (with_manager left t))
two_calls rt t m₁ left m₂ built has_runtime runs runs_next =
    rw (built, effects)
      (rw (runs, effects)
        (rw (handle_lem rt (with_manager left t) has_runtime, effects)
          (rw (runs_next, effects) refl)))

-- The manager that the worker leaves after the first task is `left`.
multiple_handles_pass :
    (left : Manager) × (t : Thread ℕ) × (test_obtaining_multiple_handles_from_same_runtime
        (some 1)
        left
        (some 2)
        fresh
      ≡ returned tt t)
multiple_handles_pass =
    let (rt, t, m, built, has_runtime, managed, rests) =
      build-Rests 1 fresh (omega arith) refl refl refl in
    let (m₁, left, runs, rests₁) = answered {T = ℕ} 1 0 rt t m has_runtime managed rests in
    let (m₂, _, runs₁, _) =
      answered {T = ℕ} 2 1 rt (with_manager left t) left has_runtime refl rests₁ in
    (left, _, two_calls rt t m₁ left m₂ built has_runtime runs runs₁)
