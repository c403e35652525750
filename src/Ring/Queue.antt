-- ===== src/Ring/Queue.antt =====
-- What a user of src/utils/ring_buffer.rs is promised: a queue of at most `cap` values, oldest
-- first, and a client's calls in order.
use min_async_runtime.Base.{
  ℕ, List, [], ◌∷◌, ◌++◌, Option, none, some, length, ◌==◌, if◌then◌else◌, Outcome, done, ◌>>=◌,
}
use min_async_runtime.Ring.{Ring, PushStatus, pushed, buffer_full}
use min_async_runtime.Ring

module _ {ℓ} {A : Type ℓ} where
  unfoldable pub push : ℕ → List A → A → PushStatus × List A
  push cap xs x = if length xs == cap then (buffer_full, xs) else (pushed, xs ++ x ∷ [])

  unfoldable pub pop : List A → Option A × List A
  pop [] = (none, [])
  pop (x ∷ xs) = (some x, xs)

-- A call, and what it returns.
pub data Call {ℓ} (A : Type ℓ) : Type ℓ where
  put : A → Call A
  take : Call A

pub data Reply {ℓ} (A : Type ℓ) : Type ℓ where
  status : PushStatus → Reply A
  value : Option A → Reply A

module _ {ℓ} {A : Type ℓ} where
  unfoldable pub run : ℕ → List A → List (Call A) → List (Reply A)
  run cap xs [] = []
  run cap xs (put x ∷ calls) = let (s, ys) = push cap xs x in status s ∷ run cap ys calls
  run cap xs (take ∷ calls) = let (o, ys) = pop xs in value o ∷ run cap ys calls

  unfoldable pub run_ring : Ring A → List (Call A) → Outcome (List (Reply A))
  run_ring r [] = done []
  run_ring r (put x ∷ calls) = do
    (s, r') ← Ring.push r x
    replies ← run_ring r' calls
    done (status s ∷ replies)
  run_ring r (take ∷ calls) = do
    (o, r') ← Ring.pop r
    replies ← run_ring r' calls
    done (value o ∷ replies)
