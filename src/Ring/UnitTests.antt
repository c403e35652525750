-- ===== src/Ring/UnitTests.antt =====
-- src/utils/ring_buffer.rs: the module `tests`, without the test of the default size. Each test runs on the buffer that it makes; an
-- `assert!` that fails panics.
use min_async_runtime.Base.{ℕ, ◌≡◌, refl, Bool, true, false, Option, none, some, ◌==◌, returned}
use min_async_runtime.Base.Monad.{M, ◌>>=◌, ◌>>◌, access, assert, asserts}
use min_async_runtime.Ring.{
  Ring, PushStatus, pushed, buffer_full, new, capacity, len, is_empty, push, pop,
}

-- `Result::is_ok` and `Result::is_err`
abbrev is_ok : PushStatus → Bool
is_ok pushed = true
is_ok buffer_full = false

abbrev is_err : PushStatus → Bool
is_err pushed = false
is_err buffer_full = true

-- `is_some`, and then `unwrap` and the comparison.
abbrev is_some_of : ℕ → Option ℕ → Bool
is_some_of value none = false
is_some_of value (some x) = x == value

abbrev test_push : M (Ring ℕ) (Unit {0})
test_push = do
  res ← access (λ r. push r 2)
  assert (is_ok res)
  asserts (λ r. len r == 1)
  res ← access (λ r. push r 3)
  assert (is_ok res)
  asserts (λ r. len r == 2)
  res ← access (λ r. push r 4)
  assert (is_err res)
  asserts (λ r. len r == 2)

abbrev test_pop : M (Ring ℕ) (Unit {0})
test_pop = do
  res ← access (λ r. push r 9)
  assert (is_ok res)
  pop_res ← access pop
  assert (is_some_of 9 pop_res)
  asserts is_empty

abbrev test_multi_insert_multi_pop : M (Ring ℕ) (Unit {0})
test_multi_insert_multi_pop = do
  asserts (λ r. capacity r == 3)
  res ← access (λ r. push r 10)
  assert (is_ok res)
  asserts (λ r. len r == 1)
  res ← access (λ r. push r 12)
  assert (is_ok res)
  asserts (λ r. len r == 2)
  pop_res ← access pop
  assert (is_some_of 10 pop_res)
  asserts (λ r. len r == 1)
  res ← access (λ r. push r 14)
  assert (is_ok res)
  asserts (λ r. len r == 2)
  res ← access (λ r. push r 15)
  assert (is_ok res)
  asserts (λ r. len r == 3)
  res ← access (λ r. push r 16)
  assert (is_err res)
  asserts (λ r. len r == 3)
  pop_res ← access pop
  assert (is_some_of 12 pop_res)
  asserts (λ r. len r == 2)
  pop_res ← access pop
  assert (is_some_of 14 pop_res)
  asserts (λ r. len r == 1)
  pop_res ← access pop
  assert (is_some_of 15 pop_res)
  asserts is_empty
  res ← access (λ r. push r 101)
  assert (is_ok res)
  asserts (λ r. len r == 1)
  pop_res ← access pop
  assert (is_some_of 101 pop_res)
  asserts is_empty
  asserts (λ r. capacity r == 3)

push_passes : (r : Ring ℕ) × (test_push (new 2) ≡ returned tt r)
unfolding push new
push_passes = (_, refl)

pop_passes : (r : Ring ℕ) × (test_pop (new 1) ≡ returned tt r)
unfolding push pop new is_empty
pop_passes = (_, refl)

multi_insert_multi_pop_passes : (r : Ring ℕ) × (test_multi_insert_multi_pop (new 3) ≡ returned tt r)
unfolding push pop new is_empty
multi_insert_multi_pop_passes = (_, refl)
