-- ===== src/Executor/Thread.antt =====
-- src/runtime.rs `build` and src/executor.rs `run`: the end of an executor's thread.
use min_async_runtime.Base.{
  ℕ, Bool, Option, none, suc, ◌<◌, ◌≡◌, refl, true, false, List, [], ◌∷◌, ◌++◌, some, length,
  ==_refl, returned, arith,
}
use min_async_runtime.Base.Monad.{effects}
use min_async_runtime.Mpsc.{Mpsc, Sent, sent}
use min_async_runtime.Mpsc
use min_async_runtime.Manager.{ExecutorTask, run_task, insert}
use min_async_runtime.Executor.{
  Poll, Host, forward_task, serve, run, executor_thread, told, closed, with_manager,
}
use min_async_runtime.Manager.System.{Reach, here, next, receive, ends, end_of, clear}
use min_async_runtime.Executor.Serve.{system}
use min_async_runtime.Executor.Progress.{recv_takes}

module _ {F : Type 0} (poll : F → Poll F) where
  -- A task that panicked once is deadly when it is woken again: the executor that receives it ends,
  -- and the other tasks in its channel are dropped with it. Its thread tells of the panic, if the
  -- panic channel has room, and returns; the executor is not idle. In `Manager.System` it is a
  -- reception and the end of the executor's thread.
  pub executor_thread-dies :
      (fuel id t : ℕ) (ch : Mpsc ExecutorTask) (q : List ExecutorTask) (h : Host F)
      → h.manager.executors id ≡ some ch
      → ch.queue ≡ run_task t ∷ q
      → (h.tasks t).poisoned ≡ true
      → h.panic_tx.receiver ≡ true
      → length h.panic_tx.queue < h.panic_tx.bound
      → (h' : Host F) × (executor_thread poll (suc fuel) id h ≡ returned tt h')
        × (h'.manager.executors id ≡ some (record ch { queue = []; receiver = false }))
        × (h'.manager.waiting_executors ≡ h.manager.waiting_executors)
        × (h'.panic_tx.queue ≡ h.panic_tx.queue ++ tt ∷ [])
        × ((running : ℕ → Option ℕ) (ended : ℕ → Bool)
            → running id ≡ none
            → Reach
                (system h running ended)
                (system h' (clear (insert running id t) id) (end_of ended id)))
  unfolding executor_thread run serve forward_task
  executor_thread-dies fuel id t ch q h found head bad alive room =
      let ch₁ = record ch { queue = q } in
      let h₁ =
        with_manager (record h.manager { executors = insert h.manager.executors id ch₁ }) h in
      let ch₂ = record h.panic_tx { queue = h.panic_tx.queue ++ tt ∷ [] } in
      let telling : Mpsc.send h.panic_tx tt ≡ sent ch₂ = ground arith in
      (
        record h₁ { manager = closed id (some ch₁) h₁.manager; panic_tx = ch₂ },
        rw (recv_takes id t ch q h found head)
            (rw (bad, effects) (rw (telling, told) (rw (==_refl id)))),
        rw (==_refl id),
        refl,
        refl,
        λ running ended free.
            let r₁ : Reach (system h running ended) (system h₁ (insert running id t) ended) =
              next here (receive id t ch q free found head) in
            next r₁ (ends id t ch₁ (rw (==_refl id) refl) (rw (==_refl id) refl)),
      )
