-- ===== src/Pool/Tests.antt =====
-- src/pool/thread_pool.rs at a pool of two threads, whose turn is the second's.
use min_async_runtime.Base.{
  ℕ, zero, suc, ◌≡◌, ◌<◌, ◌++◌, refl, Bool, true, List, [], ◌∷◌, some, get_elem?, ltb, returned,
  arith,
}
use min_async_runtime.Mpsc.{Mpsc}
use min_async_runtime.Pool.{Pool, jobs_bound, execute_all}
use min_async_runtime.Pool.Races.{
  IndexPoint, load_cursor, store_cursor, index_returned, interleave_from, IndexBelow, InRange,
  interleave_from-InRange,
}
use min_async_runtime.Pool.Turns.{Queue, Serving, share, execute_all_lem}

abbrev queue_of : List ℕ → Mpsc ℕ
queue_of q = record { queue = q; bound = jobs_bound; senders = 1; receiver = true }

abbrev pool : Pool ℕ
pool = record {
  num_threads = 2;
  cursor = 1;
  senders = queue_of (10 ∷ []) ∷ queue_of (11 ∷ 12 ∷ []) ∷ [];
}

abbrev queues : ℕ → List ℕ
queues zero = 10 ∷ []
queues (suc w) = 11 ∷ 12 ∷ []

-- Jobs below 100 return, and the others panic.
abbrev runs : ℕ → Bool
runs job = ltb job 100

queued : (w : ℕ) → w < 2 → Queue pool 3 w (queues w)
queued zero below = (queue_of (10 ∷ []), refl, refl, refl, omega arith)
queued (suc zero) below = (queue_of (11 ∷ 12 ∷ []), refl, refl, refl, omega arith)
queued (suc (suc w)) below = absurd (omega arith)

pool-Serving : Serving pool 2 7 3 queues
pool-Serving = record { threads = refl; some_thread = omega arith; turn = refl; queued = queued }

execute_all_lem_example :
    (p' : Pool ℕ) × (execute_all (20 ∷ 21 ∷ 22 ∷ []) pool ≡ returned tt p')
    × Serving p' 2 10 0 (λ w. queues w ++ share 2 w 7 (20 ∷ 21 ∷ 22 ∷ []))
execute_all_lem_example = execute_all_lem (20 ∷ 21 ∷ 22 ∷ []) pool 2 7 queues pool-Serving

-- The second thread gets the first and the third of the three jobs.
share_test : share {J = ℕ} 2 1 7 (20 ∷ 21 ∷ 22 ∷ []) ≡ 20 ∷ 22 ∷ []
unfolding share
share_test = refl

abbrev doomed : Pool ℕ
doomed = record pool { senders = queue_of [] ∷ queue_of (100 ∷ 12 ∷ []) ∷ [] }

abbrev two_calls : List IndexPoint
two_calls = load_cursor ∷ load_cursor ∷ []

two_calls-below : (i : ℕ) (t : IndexPoint) → get_elem? two_calls i ≡ some t → IndexBelow 2 t
two_calls-below zero load_cursor found = tt
two_calls-below zero (store_cursor c) found = absurd (cc)
two_calls-below zero (index_returned c) found = absurd (cc)
two_calls-below (suc zero) load_cursor found = tt
two_calls-below (suc zero) (store_cursor c) found = absurd (cc)
two_calls-below (suc zero) (index_returned c) found = absurd (cc)
two_calls-below (suc (suc i)) t found = absurd (cc)

two_calls-InRange : InRange 2 pool two_calls
two_calls-InRange = record { size = refl; cursor_in = omega arith; calls_in = two_calls-below }

interleave_from-InRange_example :
    (p' : Pool ℕ) × (threads' : List IndexPoint) × (interleave_from
        (some (pool, two_calls))
        (0 ∷ 1 ∷ 1 ∷ [])
      ≡ some (p', threads'))
    × InRange 2 p' threads'
    × ((i c : ℕ)
        → get_elem? threads' i ≡ some (index_returned c)
        → (ch : Mpsc ℕ) × (get_elem? p'.senders c ≡ some ch))
interleave_from-InRange_example =
    interleave_from-InRange (0 ∷ 1 ∷ 1 ∷ []) 2 pool two_calls two_calls-InRange refl
