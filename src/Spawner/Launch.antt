-- ===== src/Spawner/Launch.antt =====
-- src/spawner.rs `spawn` and `abort`, with the task manager.
use min_async_runtime.Base.{
  ℕ, ◌<◌, ◌≡◌, refl, true, false, List, [], ◌∷◌, Option, ==_refl, length, returned, arith,
}
use min_async_runtime.Base.Monad.{effects}
use min_async_runtime.Mpsc.{Mpsc}
use min_async_runtime.Manager.{ExecutorTask}
use min_async_runtime.Manager.Board.{
  Board, Shows, CanReceive, assign, after_submit, first_live, after_ready,
}
use min_async_runtime.Manager.Refine.{board, register_or_execute_lem, executor_ready_lem}
use min_async_runtime.Executor.{Host, generate_tag, has_aborted, wake, with_manager, ready_again}
use min_async_runtime.Reactor.{generate_reactor_tag}
use min_async_runtime.Channel.{bounded_channel}
use min_async_runtime.Channel.Laws.{Synced}
use min_async_runtime.Spawner.{
  JoinHandle, Site, spawn, abort, new_task, with_host, prepared, handle_of,
}

module _ {F T : Type 0} (arc : ℕ) (future : F) (s : Site F) (cap : ℕ) (b : Board)
    (shown : Shows s.host.manager cap b) where
  -- With room for the task, `spawn` returns a handle on it: the task holds the future, is not
  -- aborted, has a tag of its own, and goes to the executor that has been idle the longest, or
  -- waits. The handle's channel is in good order.
  pub spawn_lem :
      (b.idle ≡ [] → length b.tasks < cap)
      → ((e : ℕ) (es : List ℕ) → b.idle ≡ e ∷ es → CanReceive b.mail e)
      → (jh : JoinHandle T) × (s' : Site F) × (spawn arc future s ≡ returned jh s')
        × Shows s'.host.manager cap (assign arc b)
        × (s'.host.tasks arc ≡ new_task s.task_tag_num future)
        × (jh.task ≡ arc)
        × Synced jh.rx
        × (jh.rx.reactor_tag ≡ s.reactor_tag_num)
  unfolding spawn wake generate_tag bounded_channel generate_reactor_tag
  spawn_lem room can =
      let (rx, tags) = bounded_channel {T = T} 1 s.reactor_tag_num s.reactor in
      let s₁ = prepared arc future tags s in
      let live : has_aborted s₁.host arc ≡ false = rw (==_refl arc, has_aborted) in
      let (m, p, shown') =
        register_or_execute_lem (has_aborted s₁.host) s.host.manager cap b shown arc (λ _. room)
          can in
      (
        handle_of arc rx,
        with_host (with_manager m s₁.host) s₁,
        rw (p, effects),
        rw (live, after_submit) at shown',
        rw (==_refl arc),
        refl,
        record {
          counted = refl;
          small = omega arith;
          fits = omega arith;
          cloned = refl;
          few = omega arith;
        },
        refl,
      )

-- A task that is aborted while it waits alone for an executor is never run: the next executor that
-- is ready finds no task, and is idle.
pub spawn-abort :
    {F T : Type 0} (arc id : ℕ) (future : F) (s : Site F) (cap : ℕ)
    (mail : ℕ → Option (Mpsc ExecutorTask))
    → Shows s.host.manager cap (board [] [] mail)
    → 0 < cap
    → CanReceive mail id
    → (jh : JoinHandle T) × (s' : Site F) × (h : Host F) × (spawn arc future s ≡ returned jh s')
      × (ready_again id (abort jh s'.host) ≡ returned tt h)
      × Shows h.manager cap (board [] (id ∷ []) mail)
unfolding abort ready_again first_live
spawn-abort {T} arc id future s cap mail shown room can =
    let (jh, s', p, shown₁, _, same, _, _) =
      spawn_lem {T = T} arc future s cap _ shown (λ _. room) (λ e es h. absurd (cc)) in
    let h₁ = abort jh s'.host in
    let dead : has_aborted h₁ arc ≡ true = rw (same, ==_refl arc, has_aborted) in
    let (m, q, shown₂) = executor_ready_lem (has_aborted h₁) h₁.manager cap _ shown₁ id room can in
    (jh, s', with_manager m h₁, p, rw (q, effects), rw (dead, after_ready) at shown₂)
