-- ===== src/Executor/Progress.antt =====
-- src/executor.rs `run`: what a round of the loop does, unless the task panics.
use min_async_runtime.Base.{
  ℕ, suc, ◌+◌, ◌≤◌, ◌<◌, ◌≡◌, ◌≢◌, refl, Bool, true, false, List, [], ◌∷◌, Option, none, some,
  length, length-append, ==_refl, Bool-cases, inl, inr, returned, arith,
}
use min_async_runtime.Base.Monad.{effects}
use min_async_runtime.Mpsc.{Mpsc}
use min_async_runtime.Manager.{Manager, ExecutorTask, run_task, insert}
use min_async_runtime.Manager.Board.{Board, Shows, assign, after_submit, after_ready}
use min_async_runtime.Manager.Refine.{board}
use min_async_runtime.Manager.System.{Inv}
use min_async_runtime.Manager.Moves.{submit_total, submit-Inv, finish_total}
use min_async_runtime.Manager.Invariant.{receive_step}
use min_async_runtime.Executor.{
  Polled, pending, ready, panics, Poll, Host, has_aborted, wake, wake_all, forward_task,
  with_manager, update_task, serve, recv, ready_again, take_message,
}
use min_async_runtime.Executor.Forward.{forward_task-ends, forward_task-pending}
use min_async_runtime.Executor.Serve.{system}

assign-short :
    (t : ℕ) (ts es : List ℕ) (mail : ℕ → Option (Mpsc ExecutorTask))
    → length (assign t (board ts es mail)).tasks ≤ suc (length ts)
assign-short t ts [] mail = omega (arith, length-append ts (t ∷ []))
assign-short t ts (e ∷ es) mail = omega arith

after_submit-short :
    (aborted : ℕ → Bool) (t : ℕ) (b : Board)
    → length (after_submit aborted t b).tasks ≤ suc (length b.tasks)
after_submit-short aborted t b = elim (Bool-cases (aborted t)) [
  | inl dead ↦ rw (dead, after_submit) (omega arith)
  | inr live ↦ rw (live, after_submit) (assign-short t b.tasks b.idle b.mail)
]

-- The tasks of the list are handed over one after the other.
abbrev pub submit_all : (ℕ → Bool) → List ℕ → Board → Board
submit_all aborted [] b = b
submit_all aborted (t ∷ ts) b = submit_all aborted ts (after_submit aborted t b)

-- What a poll that does not panic leaves of the future.
abbrev pub future_left : {F : Type 0} → Polled F → Option F
future_left (pending f) = some f
future_left ready = none
future_left panics = none

abbrev pub leave_future : {F : Type 0} → ℕ → Option F → Host F → Host F
leave_future t left h = update_task t (λ task. record task { future = left }) h

module _ {F : Type 0} (n cap : ℕ) (small : n < cap) (running : ℕ → Option ℕ)
    (ended : ℕ → Bool) where
  -- Wakes return as long as the task queue has a place for each.
  wake_all_total :
      (ts : List ℕ) (h : Host F) (b : Board)
      → Inv n cap (system h running ended) b
      → length b.tasks + length ts ≤ cap
      → (m : Manager) × (wake_all ts h ≡ returned tt (with_manager m h))
        × Inv n cap (system (with_manager m h) running ended) (submit_all (has_aborted h) ts b)
  unfolding wake_all wake
  wake_all_total [] h b v room = (h.manager, refl, v)
  wake_all_total (t ∷ ts) h b v room =
      let (m, p, shown) = submit_total small v (has_aborted h) t (λ live idle. omega arith) in
      let v₁ = submit-Inv n cap (system h running ended) b (has_aborted h) t m small v shown in
      let short = after_submit-short (has_aborted h) t b in
      let (m', q, v') = wake_all_total ts (with_manager m h) _ v₁ (omega (arith, short, room)) in
      (m', rw (p, effects) q, v')

-- A poll that does not panic ends.
forward_task_total :
    {F : Type 0} (poll : F → Poll F) (t : ℕ) (fut : F) (p : Polled F) (h h₁ : Host F)
    → (poll fut).polled ≡ p
    → p ≢ panics
    → (h.tasks t).poisoned ≡ false
    → (h.tasks t).future ≡ some fut
    → wake_all (poll fut).wakes h ≡ returned tt h₁
    → forward_task poll t h ≡ returned tt (leave_future t (future_left p) h₁)
forward_task_total poll t fut (pending f) h h₁ e fine sound present woken =
    forward_task-pending poll t fut h h₁ sound present woken f e
forward_task_total poll t fut ready h h₁ e fine sound present woken =
    forward_task-ends poll t fut h h₁ sound present woken e
forward_task_total poll t fut panics h h₁ e fine sound present woken = absurd (fine refl)

pub recv_takes :
    {F : Type 0} (id t : ℕ) (ch : Mpsc ExecutorTask) (q : List ExecutorTask) (h : Host F)
    → h.manager.executors id ≡ some ch
    → ch.queue ≡ run_task t ∷ q
    → recv id h
      ≡ returned (some (run_task t)) (
          with_manager
            (record h.manager {
              executors = insert h.manager.executors id (record ch { queue = q });
            })
            h)
unfolding recv
recv_takes id t ch q h found head = rw found (rw (head, take_message))

module _ {F : Type 0} (n cap : ℕ) (small : n < cap) (running : ℕ → Option ℕ)
    (ended : ℕ → Bool) where
  -- In a system that keeps the manager's invariant, an executor that polls nothing has task `t` first
  -- in its channel, whose mutex is sound and whose future is still there. If the poll does not panic
  -- and the task queue has a place for each task that it wakes, the round returns and the loop goes
  -- on, and the round has done this: the message is out of the executor's channel; the tasks that
  -- the poll woke, the aborted ones apart, have been handed over, in order, each to the executor
  -- that was idle the longest or behind those that wait; then the executor got the oldest live task
  -- that waits, with the aborted ones before it dropped, or is idle if there is none. The
  -- future of `t` is what the poll left of it, dropped if it was ready; the tasks are otherwise
  -- what they were, and no panic is reported.
  pub serve-returns :
      (poll : F → Poll F) (id t : ℕ) (fut : F) (ch : Mpsc ExecutorTask) (q : List ExecutorTask)
      (h : Host F) (b : Board)
      → Inv n cap (system h running ended) b
      → running id ≡ none
      → h.manager.executors id ≡ some ch
      → ch.queue ≡ run_task t ∷ q
      → (h.tasks t).poisoned ≡ false
      → (h.tasks t).future ≡ some fut
      → (poll fut).polled ≢ panics
      → length b.tasks + length (poll fut).wakes ≤ cap
      → (m : Manager) × (h' : Host F) × (serve poll id h ≡ returned true h')
        × (h' ≡ with_manager m (leave_future t (future_left (poll fut).polled) h))
        × Shows m cap (
            after_ready (has_aborted h') id (
              submit_all
                (has_aborted h)
                (poll fut).wakes
                (record b { mail = insert b.mail id (record ch { queue = q }) })))
  unfolding serve ready_again
  serve-returns poll id t fut ch q h b v free found head sound present fine room =
      let polling = insert running id t in
      let ch₁ = record ch { queue = q } in
      let h₁ =
        with_manager (record h.manager { executors = insert h.manager.executors id ch₁ }) h in
      let v₁ = receive_step small v id t ch q free found head in
      let (m₂, woken, v₂) =
        wake_all_total n cap small polling ended (poll fut).wakes h₁ _ v₁ room in
      let h₂ = leave_future t (future_left (poll fut).polled) (with_manager m₂ h₁) in
      let forwarded =
        forward_task_total poll t fut (poll fut).polled h₁ (with_manager m₂ h₁) refl fine sound
          present woken in
      let here_now : polling id ≡ some t = rw (==_refl id) in
      let (m₃, p, shown) = finish_total small v₂ (has_aborted h₂) id t here_now in
      (
        m₃,
        with_manager m₃ h₂,
        rw (recv_takes id t ch q h found head) (rw (forwarded, effects) (rw (p, effects))),
        refl,
        shown,
      )
