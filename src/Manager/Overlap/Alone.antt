-- ===== src/Manager/Overlap/Alone.antt =====
-- src/task/manager.rs: a call whose thread is not interrupted does what the whole call does.
use min_async_runtime.Base.{
  ℕ, zero, suc, ◌≡◌, ◌≢◌, refl, Bool, Option, none, some, Bool-cases, inl, inr, if◌then◌else◌, Exit,
  returned, panicked, blocked, exhausted, faulted,
}
use min_async_runtime.Base.Monad.{M, pure, ◌>>=◌, chain}
use min_async_runtime.Ring
use min_async_runtime.Manager.{
  Manager, ready_loop, executor_ready, register_or_execute_non_blocking_task, push_executor,
  push_task, pop_task, pop_executor, send_to,
}
use min_async_runtime.Manager.Overlap.{
  Call, registers, is_ready, over, call_step, found_executor, found_task,
}

-- So many steps of a call, one after the other.
unfoldable pub alone : ℕ → (ℕ → Bool) → Call → M Manager Call
alone zero aborted c = pure c
alone (suc k) aborted c = do c' ← call_step aborted c; alone k aborted c'

alone-over : (k : ℕ) (aborted : ℕ → Bool) (m : Manager) → alone k aborted over m ≡ returned over m
unfolding alone call_step
alone-over zero aborted m = refl
alone-over (suc k) aborted m = alone-over k aborted m

-- Two steps for each round of the loop of `executor_ready`, and one more.
double : ℕ → ℕ
double zero = zero
double (suc n) = suc (suc (double n))

pub ready_steps : ℕ → ℕ
unfolding double
ready_steps n = suc (double n)

module _ (aborted : ℕ → Bool) where
  -- A call on its last step, which may leave by a panic.
  last_step :
      (k : ℕ) (x : Exit Manager (Unit {0}))
      → chain (chain x (λ u. pure over)) (alone k aborted) ≡ chain x (λ u. pure over)
  last_step k (returned u m) = alone-over k aborted m
  last_step k (panicked m) = refl
  last_step k blocked = refl
  last_step k exhausted = refl
  last_step k faulted = refl

  seeks_lem :
      (t : ℕ) (x : Exit Manager (Option ℕ))
      → chain (chain x (λ next. pure (found_executor t next))) (alone 1 aborted)
        ≡ chain
            (chain x (λ next. elim next [ none ↦ push_task t | some exec ↦ send_to exec t ]))
            (λ u. pure over)
  unfolding alone call_step
  seeks_lem t (returned none m) = last_step 0 (push_task t m)
  seeks_lem t (returned (some e) m) = last_step 0 (send_to e t m)
  seeks_lem t (panicked m) = refl
  seeks_lem t blocked = refl
  seeks_lem t exhausted = refl
  seeks_lem t faulted = refl

  alone-registers :
      (t : ℕ) (m : Manager)
      → alone 3 aborted (registers t) m
        ≡ (register_or_execute_non_blocking_task aborted t >>= λ u. pure over) m
  unfolding alone call_step register_or_execute_non_blocking_task
  alone-registers t m = elim (Bool-cases (aborted t)) [
    | inl dead ↦ rw dead refl
    | inr live ↦ rw live (seeks_lem t (pop_executor m))
  ]

  -- What `executor_ready` does with what it has popped; `again` is the next round.
  abbrev pick : ℕ → M Manager (Unit {0}) → Option ℕ → M Manager (Unit {0})
  pick e again none = push_executor e
  pick e again (some task) = if aborted task then again else send_to e task

  is_ready_lem :
      (fuel e : ℕ) (x : Exit Manager (Option ℕ))
      → chain x (pick e (ready_loop fuel aborted e)) ≢ exhausted
      → ((m : Manager)
          → ready_loop fuel aborted e m ≢ exhausted
          → alone (ready_steps fuel) aborted (is_ready e) m
            ≡ (ready_loop fuel aborted e >>= λ u. pure over) m)
      → chain (chain x (λ next. pure (found_task e next))) (alone (double (suc fuel)) aborted)
        ≡ chain (chain x (pick e (ready_loop fuel aborted e))) (λ u. pure over)
  unfolding alone call_step double ready_steps
  is_ready_lem fuel e (returned none m) fine ih = last_step (suc (double fuel)) (push_executor e m)
  is_ready_lem fuel e (returned (some t) m) fine ih = elim (Bool-cases (aborted t)) [
    | inl dead ↦ rw dead (ih m (rw dead at fine))
    | inr live ↦ rw live (last_step (double fuel) (send_to e t m))
  ]
  is_ready_lem fuel e (panicked m) fine ih = refl
  is_ready_lem fuel e blocked fine ih = refl
  is_ready_lem fuel e exhausted fine ih = refl
  is_ready_lem fuel e faulted fine ih = refl

  alone-ready_loop :
      (fuel e : ℕ) (m : Manager)
      → ready_loop fuel aborted e m ≢ exhausted
      → alone (ready_steps fuel) aborted (is_ready e) m
        ≡ (ready_loop fuel aborted e >>= λ u. pure over) m
  unfolding alone call_step ready_loop ready_steps double
  alone-ready_loop zero e m fine = absurd (fine refl)
  alone-ready_loop (suc fuel) e m fine =
      is_ready_lem fuel e (pop_task m) fine (alone-ready_loop fuel e)

  -- A call whose thread is not interrupted does what the whole call does, whether it returns, panics
  -- or waits: `register_or_execute_non_blocking_task`, in three steps, and `executor_ready`, in so
  -- many that its loop ends.
  pub alone-eq-calls_whole :
      (m : Manager)
      → ((t : ℕ)
          → alone 3 aborted (registers t) m
            ≡ (register_or_execute_non_blocking_task aborted t >>= λ u. pure over) m)
        × ((e : ℕ)
            → executor_ready aborted e m ≢ exhausted
            → alone (ready_steps (suc (Ring.len m.waiting_tasks))) aborted (is_ready e) m
              ≡ (executor_ready aborted e >>= λ u. pure over) m)
  unfolding executor_ready
  alone-eq-calls_whole m = (
    λ t. alone-registers t m,
    λ e fine. alone-ready_loop (suc (Ring.len m.waiting_tasks)) e m fine,
  )
