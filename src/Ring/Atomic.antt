-- ===== src/Ring/Atomic.antt =====
-- src/utils/ring_buffer.rs with other threads in between: `push` and `pop` as the sequence of their
-- accesses to the shared fields, and a schedule that says which thread makes the next access.
-- Every access is one indivisible step, in program order, whatever `Ordering` the source gives.
use min_async_runtime.Base.{
  ℕ, List, [], ◌∷◌, Option, none, some, set, get_elem?, ◌==◌, ◌&&◌, if◌then◌else◌, add_usize,
  sub_usize, Outcome, done, ◌>>=◌,
}
use min_async_runtime.Ring.{
  Ring, PushStatus, pushed, buffer_full, capacity, len, insert_value, get_value, next_end,
  next_start,
}

-- Where a thread stands in `push`, with its local variables.
pub data PushPoint {ℓ} (A : Type ℓ) : Type ℓ where
  check_full : A → PushPoint A
  load_end : A → PushPoint A
  write_slot : A → ℕ → PushPoint A
  add_count : ℕ → PushPoint A
  store_end : ℕ → PushPoint A
  push_returned : PushStatus → PushPoint A

-- Where a thread stands in `pop`.
pub data PopPoint {ℓ} (A : Type ℓ) : Type ℓ where
  load_start : PopPoint A
  load_old_end : ℕ → PopPoint A
  check_empty : ℕ → ℕ → PopPoint A
  take_slot : ℕ → PopPoint A
  sub_count : ℕ → A → PopPoint A
  store_start : ℕ → A → PopPoint A
  pop_returned : Option A → PopPoint A

pub data Thread {ℓ} (A : Type ℓ) : Type ℓ where
  pushing : PushPoint A → Thread A
  popping : PopPoint A → Thread A

module _ {ℓ} {A : Type ℓ} where
  unfoldable pub push_step : Ring A → PushPoint A → Outcome (Ring A × PushPoint A)
  unfolding insert_value
  push_step r (check_full x) =
      done (r, if len r == capacity r then push_returned buffer_full else load_end x)
  push_step r (load_end x) = done (r, write_slot x r.end)
  push_step r (write_slot x e) = do r' ← insert_value r e x; done (r', add_count e)
  push_step r (add_count e) = done (record r { count = add_usize r.count 1 }, store_end e)
  push_step r (store_end e) = done (record r { end = next_end r e }, push_returned pushed)
  push_step r (push_returned s) = done (r, push_returned s)

  unfoldable pub pop_step : Ring A → PopPoint A → Outcome (Ring A × PopPoint A)
  unfolding get_value
  pop_step r load_start = done (r, load_old_end r.start)
  pop_step r (load_old_end s) = done (r, check_empty s r.end)
  pop_step r (check_empty s e) =
      done (r, if (s == e) && (r.count == 0) then pop_returned none else take_slot s)
  pop_step r (take_slot s) = do (v, r') ← get_value r s; done (r', sub_count s v)
  pop_step r (sub_count s v) = done (record r { count = sub_usize r.count 1 }, store_start s v)
  pop_step r (store_start s v) = done (record r { start = next_start r s }, pop_returned (some v))
  pop_step r (pop_returned o) = done (r, pop_returned o)

  unfoldable pub thread_step : Ring A → Thread A → Outcome (Ring A × Thread A)
  unfolding push_step pop_step
  thread_step r (pushing p) = do (r', p') ← push_step r p; done (r', pushing p')
  thread_step r (popping p) = do (r', p') ← pop_step r p; done (r', popping p')

  -- The next access of thread `i`, and those of a whole schedule.
  unfoldable pub turn : Ring A → List (Thread A) → ℕ → Outcome (Ring A × List (Thread A))
  unfolding thread_step
  turn r threads i = elim (get_elem? threads i) [
    | none ↦ done (r, threads)
    | some t ↦ do (r', t') ← thread_step r t; done (r', set threads i t')
  ]

  unfoldable pub interleave : Ring A → List (Thread A) → List ℕ → Outcome (Ring A × List (Thread A))
  unfolding turn
  interleave r threads [] = done (r, threads)
  interleave r threads (i ∷ schedule) = do
    (r', threads') ← turn r threads i
    interleave r' threads' schedule
