-- ===== src/Pool/UnitTests.antt =====
-- src/pool/thread_pool.rs: the test `test_index_update` of the module `tests`. A job only sends on
-- the test's channel; the test waits for that until the job's thread has run it.
use min_async_runtime.Base.{ℕ, ◌≡◌, refl, true, Option, none, some, ◌==◌, returned}
use min_async_runtime.Base.Monad.{M, pure, ◌>>=◌, ◌>>◌, panic, asserts}
use min_async_runtime.Pool.{Pool, init, get_pool, execute, work}

abbrev ran : Option ℕ → M (Pool ℕ) (Unit {0})
ran none = panic
ran (some job) = pure tt

-- `rx.recv().unwrap()`, once thread `w` has made a round.
abbrev recv_unwrap : ℕ → M (Pool ℕ) (Unit {0})
recv_unwrap w = do res ← work (λ job. true) w; ran res

abbrev test_index_update : M (Pool ℕ) (Unit {0})
test_index_update = do
  asserts (λ p. p.cursor == 0)
  execute 7
  recv_unwrap 0
  asserts (λ p. p.cursor == 1)
  execute 8
  recv_unwrap 1
  asserts (λ p. p.cursor == 0)
  execute 9
  recv_unwrap 0
  asserts (λ p. p.cursor == 1)

-- The pool that `HoochPool::init(2)` leaves on a fresh thread passes it.
index_update_passes :
    (pool p : Pool ℕ) × (get_pool (init 2 none) ≡ some pool)
    × (test_index_update pool ≡ returned tt p)
unfolding init execute work
index_update_passes = (_, _, refl, refl)
