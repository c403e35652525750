-- ===== src/Time/UnitTests.antt =====
-- src/time/sleep.rs and src/time/timeout.rs: their unit tests. What the worker sends back is an
-- argument, as is what `Instant` measures.
use min_async_runtime.Base.{
  ℕ, ◌≡◌, refl, Bool, true, false, [], Option, none, some, leb, not, returned, arith,
}
use min_async_runtime.Base.Monad.{M, ◌>>=◌, ◌>>◌, assert, effects}
use min_async_runtime.Base.Future.{Poll, pending, ready, Result, ok, err}
use min_async_runtime.Runtime.{Runtime, Thread, new_builder, build, run_blocking, with_manager}
use min_async_runtime.Runtime.Workers.{build-Rests}
use min_async_runtime.Runtime.UnitTests.{fresh, answered}
use min_async_runtime.Time.Timeout.{TimeoutError, timed_out}
use min_async_runtime.Time.Race.{answer}

abbrev is_ok : Result (Unit {0}) TimeoutError → Bool
is_ok (ok value) = true
is_ok (err e) = false

-- The output of a poll.
abbrev output : {A : Type 0} → Poll A → Option A
output pending = none
output (ready value) = some value

abbrev test_sleep : Option ℕ → M (Thread ℕ) (Unit {0})
test_sleep elapsed = do build new_builder; res ← run_blocking 0 elapsed []; assert (leb 400 res)

abbrev test_timeout_function_timeout_error :
    Option (Result (Unit {0}) TimeoutError) → M (Thread ℕ) (Unit {0})
test_timeout_function_timeout_error sent = do
  build new_builder
  res ← run_blocking 0 sent []
  assert (not (is_ok res))

abbrev test_timeout_function_ok_result :
    Option (Result (Unit {0}) TimeoutError) → M (Thread ℕ) (Unit {0})
test_timeout_function_ok_result sent = do
  build new_builder
  res ← run_blocking 0 sent []
  assert (is_ok res)

-- `build`, and `run_blocking` of a task that is ready at once.
built_answered :
    {T : Type 0} (value : T)
    → (rt : Runtime) × (t t' : Thread ℕ) × (build new_builder fresh ≡ returned rt t)
      × (run_blocking 0 (some value) [] t ≡ returned value t')
built_answered value =
    let (rt, t, m, built, has_runtime, managed, rests) =
      build-Rests 1 fresh (omega arith) refl refl refl in
    let (m₁, _, runs, _) = answered value 0 rt t m has_runtime managed rests in
    (rt, t, with_manager m₁ t, built, runs)

sleep_passes : (t : Thread ℕ) × (test_sleep (some 403) fresh ≡ returned tt t)
sleep_passes =
    let (_, _, t, built, runs) = built_answered {T = ℕ} 403 in
    (t, rw (built, effects) (rw (runs, effects) refl))

-- The event of the timeout's timer has come, and that of the sleep has not.
timeout_error_passes :
    (t : Thread ℕ) × (test_timeout_function_timeout_error (output (answer true false)) fresh
      ≡ returned tt t)
timeout_error_passes =
    let (_, _, t, built, runs) =
      built_answered {T = Result (Unit {0}) TimeoutError} (err timed_out) in
    (t, rw (built, effects) (rw (runs, effects) refl))

ok_result_passes :
    (t : Thread ℕ) × (test_timeout_function_ok_result (output (answer false true)) fresh
      ≡ returned tt t)
ok_result_passes =
    let (_, _, t, built, runs) = built_answered {T = Result (Unit {0}) TimeoutError} (ok tt) in
    (t, rw (built, effects) (rw (runs, effects) refl))
