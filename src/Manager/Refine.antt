-- ===== src/Manager/Refine.antt =====
-- src/task/manager.rs against `Manager.Board`: every call returns, with the board's new state.
use min_async_runtime.Base.{
  ℕ, zero, suc, ◌<◌, ◌≡◌, refl, Bool, false, List, [], ◌∷◌, ◌++◌, Option, none, some, Bool-cases,
  inl, inr, length, returned, panicked, arith, lt→ltb,
}
use min_async_runtime.Base.Monad.{effects}
use min_async_runtime.Mpsc.{Mpsc}
use min_async_runtime.Ring.{pushed, buffer_full}
use min_async_runtime.Ring
use min_async_runtime.Ring.Refine.{Holds, push-full, push_accepts, pop-empty, pop_takes}
use min_async_runtime.Manager.{
  Manager, ExecutorTask, with_tasks, with_executors, push_executor, push_task, pop_task,
  pop_executor, send_to, ready_loop, executor_ready, register_or_execute_non_blocking_task,
}
use min_async_runtime.Manager.Board.{
  Board, Shows, first_live, post, after_ready, after_submit, CanReceive,
}

module _ {m : Manager} {cap : ℕ} where
  pub push_executor_lem :
      {b : Board} (id : ℕ)
      → Shows m cap b
      → length b.idle < cap
      → (m' : Manager) × (push_executor id m ≡ returned tt m')
        × Shows m' cap (record b { idle = b.idle ++ id ∷ [] })
  unfolding push_executor
  push_executor_lem id shown room =
      let (r, e, h) = push_accepts id shown.idle_held room in
      (
        with_executors r m,
        rw (e, effects),
        record { tasks_held = shown.tasks_held; idle_held = h; mailed = shown.mailed },
      )

  pub push_task_lem :
      {b : Board} (t : ℕ)
      → Shows m cap b
      → length b.tasks < cap
      → (m' : Manager) × (push_task t m ≡ returned tt m')
        × Shows m' cap (record b { tasks = b.tasks ++ t ∷ [] })
  unfolding push_task
  push_task_lem t shown room =
      let (r, e, h) = push_accepts t shown.tasks_held room in
      (
        with_tasks r m,
        rw (e, effects),
        record { tasks_held = h; idle_held = shown.idle_held; mailed = shown.mailed },
      )

  pub push_task-full :
      {b : Board} (t : ℕ) → Shows m cap b → length b.tasks ≡ cap → push_task t m ≡ panicked m
  unfolding push_task
  push_task-full t shown full = rw (push-full t shown.tasks_held full, effects)

  pub send_to_lem :
      {b : Board} (id t : ℕ)
      → Shows m cap b
      → CanReceive b.mail id
      → (m' : Manager) × (send_to id t m ≡ returned tt m')
        × Shows m' cap (record b { mail = post b.mail id t })
  unfolding send_to
  send_to_lem {b} id t shown (ch, found, alive, room) =
      let fits = lt→ltb (length ch.queue) ch.bound room in
      (
        record m { executors = post b.mail id t },
        rw (shown.mailed, found, post) (rw (alive, fits)),
        record { tasks_held = shown.tasks_held; idle_held = shown.idle_held; mailed = refl },
      )

  pub pop_task-none : {b : Board} → Shows m cap b → b.tasks ≡ [] → pop_task m ≡ returned none m
  unfolding pop_task
  pop_task-none {b} shown e =
      let held : Holds m.waiting_tasks cap [] = rw e at shown.tasks_held in
      rw (pop-empty held, effects)

  pub pop_task-some :
      {b : Board} (t : ℕ) (ts : List ℕ)
      → Shows m cap b
      → b.tasks ≡ t ∷ ts
      → (m' : Manager) × (pop_task m ≡ returned (some t) m')
        × Shows m' cap (record b { tasks = ts })
  unfolding pop_task
  pop_task-some t ts shown e =
      let held : Holds m.waiting_tasks cap (t ∷ ts) = rw e at shown.tasks_held in
      let (r, p, h) = pop_takes held in
      (
        with_tasks r m,
        rw (p, effects),
        record { tasks_held = h; idle_held = shown.idle_held; mailed = shown.mailed },
      )

  pub pop_executor-none :
      {b : Board} → Shows m cap b → b.idle ≡ [] → pop_executor m ≡ returned none m
  unfolding pop_executor
  pop_executor-none {b} shown e =
      let held : Holds m.waiting_executors cap [] = rw e at shown.idle_held in
      rw (pop-empty held, effects)

  pub pop_executor-some :
      {b : Board} (id : ℕ) (es : List ℕ)
      → Shows m cap b
      → b.idle ≡ id ∷ es
      → (m' : Manager) × (pop_executor m ≡ returned (some id) m')
        × Shows m' cap (record b { idle = es })
  unfolding pop_executor
  pop_executor-some id es shown e =
      let held : Holds m.waiting_executors cap (id ∷ es) = rw e at shown.idle_held in
      let (r, p, h) = pop_takes held in
      (
        with_executors r m,
        rw (p, effects),
        record { tasks_held = shown.tasks_held; idle_held = h; mailed = shown.mailed },
      )

abbrev pub board : List ℕ → List ℕ → (ℕ → Option (Mpsc ExecutorTask)) → Board
board ts es mail = record { tasks = ts; idle = es; mail = mail }

-- The loop has fuel enough if it has more than there are waiting tasks.
ready_loop_lem :
    (aborted : ℕ → Bool) (id fuel cap : ℕ) (m : Manager) (ts es : List ℕ)
    (mail : ℕ → Option (Mpsc ExecutorTask))
    → Shows m cap (board ts es mail)
    → length ts < fuel
    → length es < cap
    → CanReceive mail id
    → (m' : Manager) × (ready_loop fuel aborted id m ≡ returned tt m')
      × Shows m' cap (after_ready aborted id (board ts es mail))
unfolding ready_loop first_live
ready_loop_lem aborted id zero cap m ts es mail shown f room can = elim f [ ]
ready_loop_lem aborted id (suc fuel) cap m [] es mail shown f room can =
    let (m', p, s) = push_executor_lem id shown room in
    (m', rw (pop_task-none shown refl, effects) p, s)
ready_loop_lem aborted id (suc fuel) cap m (t ∷ ts) es mail shown f room can =
    let (m₁, p, s₁) = pop_task-some t ts shown refl in
    elim (Bool-cases (aborted t)) [
      | inl dead ↦
          let (m', q, s) =
            ready_loop_lem aborted id fuel cap m₁ ts es mail s₁ (omega arith) room can in
          (m', rw (p, effects) (rw dead q), rw (dead, after_ready) s)
      | inr live ↦
          let (m', q, s) = send_to_lem id t s₁ can in
          (m', rw (p, effects) (rw live q), rw (live, after_ready) s)
    ]

submit_live :
    (aborted : ℕ → Bool) (t cap : ℕ) (m : Manager) (ts es : List ℕ)
    (mail : ℕ → Option (Mpsc ExecutorTask))
    → Shows m cap (board ts es mail)
    → aborted t ≡ false
    → (es ≡ [] → length ts < cap)
    → ((e : ℕ) (rest : List ℕ) → es ≡ e ∷ rest → CanReceive mail e)
    → (m' : Manager) × (register_or_execute_non_blocking_task aborted t m ≡ returned tt m')
      × Shows m' cap (after_submit aborted t (board ts es mail))
unfolding register_or_execute_non_blocking_task
submit_live aborted t cap m ts [] mail shown live room can =
    let (m', p, s) = push_task_lem t shown (room refl) in
    (m', rw live (rw (pop_executor-none shown refl, effects) p), rw (live, after_submit) s)
submit_live aborted t cap m ts (e ∷ es) mail shown live room can =
    let (m₁, p, s₁) = pop_executor-some e es shown refl in
    let (m', q, s) = send_to_lem e t s₁ (can e es refl) in
    (m', rw live (rw (p, effects) q), rw (live, after_submit) s)

module _ (aborted : ℕ → Bool) (m : Manager) (cap : ℕ) (b : Board) (shown : Shows m cap b) where
  -- An executor with a live receiver, room in its channel, and a place among the idle, that asks
  -- for work gets it, or is queued as idle: `executor_ready` returns, drops exactly the aborted
  -- tasks before the first live one, sends that one, and queues the executor only if no live task
  -- waits.
  pub executor_ready_lem :
      (id : ℕ)
      → length b.idle < cap
      → CanReceive b.mail id
      → (m' : Manager) × (executor_ready aborted id m ≡ returned tt m')
        × Shows m' cap (after_ready aborted id b)
  unfolding executor_ready
  executor_ready_lem id room can =
      ready_loop_lem aborted id (suc (Ring.len m.waiting_tasks)) cap m b.tasks b.idle b.mail shown
        (omega (arith, shown.tasks_held.counted)) room can

  -- If a live task finds a place in the task queue whenever nobody is idle, and the executor that
  -- has been idle the longest can receive, the call returns: a live task goes to that executor, or
  -- waits behind the others when none is idle; an aborted one is dropped.
  pub register_or_execute_lem :
      (t : ℕ)
      → (aborted t ≡ false → b.idle ≡ [] → length b.tasks < cap)
      → ((e : ℕ) (es : List ℕ) → b.idle ≡ e ∷ es → CanReceive b.mail e)
      → (m' : Manager) × (register_or_execute_non_blocking_task aborted t m ≡ returned tt m')
        × Shows m' cap (after_submit aborted t b)
  unfolding register_or_execute_non_blocking_task
  register_or_execute_lem t room can = elim (Bool-cases (aborted t)) [
    | inl dead ↦ (m, rw dead, rw (dead, after_submit) shown)
    | inr live ↦ submit_live aborted t cap m b.tasks b.idle b.mail shown live (room live) can
  ]

  -- With no executor idle and no place left, a live task makes the caller panic, and nothing is
  -- changed.
  pub register_or_execute_full :
      (t : ℕ)
      → aborted t ≡ false
      → b.idle ≡ []
      → length b.tasks ≡ cap
      → register_or_execute_non_blocking_task aborted t m ≡ panicked m
  unfolding register_or_execute_non_blocking_task
  register_or_execute_full t live idle full =
      rw live (rw (pop_executor-none shown idle, effects) (push_task-full t shown full))
