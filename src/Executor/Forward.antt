-- ===== src/Executor/Forward.antt =====
-- src/executor.rs `forward_task`: a finished future is polled no more, and a panic stays with its
-- task.
use min_async_runtime.Base.{
  ℕ, refl, ◌≡◌, true, false, List, [], ◌∷◌, ◌++◌, none, some, ==_refl, returned, panicked, blocked,
  arith, length, ◌<◌,
}
use min_async_runtime.Base.Monad.{effects, place-returned, chain-returned}
use min_async_runtime.Manager.{Manager}
use min_async_runtime.Executor.{
  pending, ready, panics, Poll, Host, wake, wake_all, forward_task, send_panic, update_task,
  with_manager,
}

module _ {F : Type 0} where
  -- Wakes touch the manager alone.
  wake-eq :
      (t : ℕ) (h : Host F) {h' : Host F}
      → wake t h ≡ returned tt h'
      → (m : Manager) × (h' ≡ with_manager m h)
  unfolding wake
  wake-eq t h e = let (m, _, p) = place-returned with_manager h _ e in (m, p)

  wake_all-eq :
      (ts : List ℕ) (h : Host F) {h' : Host F}
      → wake_all ts h ≡ returned tt h'
      → (m : Manager) × (h' ≡ with_manager m h)
  unfolding wake_all
  wake_all-eq [] h e = (h.manager, ground arith)
  wake_all-eq (t ∷ ts) h e =
      let (_, h₁, p, q) = chain-returned (wake t h) (λ _. wake_all ts) e in
      let (m₁, r₁) = wake-eq t h p in let (m, r) = wake_all-eq ts h₁ q in (m, cc)

  send_panic-sent :
      (h : Host F)
      → h.panic_tx.receiver ≡ true
      → length h.panic_tx.queue < h.panic_tx.bound
      → send_panic h
        ≡ returned tt
            (record h { panic_tx = record h.panic_tx { queue = h.panic_tx.queue ++ tt ∷ [] } })
  unfolding send_panic
  send_panic-sent h alive room = ground arith

  send_panic-full :
      (h : Host F)
      → h.panic_tx.receiver ≡ true
      → length h.panic_tx.queue ≡ h.panic_tx.bound
      → send_panic h ≡ blocked
  unfolding send_panic
  send_panic-full h alive full = ground arith

  -- The host after task `t` has panicked: its mutex is poisoned, and the panic is reported.
  abbrev pub poisoned_host : ℕ → Host F → Host F
  poisoned_host t h = record (update_task t (λ task. record task { poisoned = true }) h) {
    panic_tx = record h.panic_tx { queue = h.panic_tx.queue ++ tt ∷ [] };
  }

  module _ (poll : F → Poll F) (t : ℕ) (fut : F) (h h₁ : Host F)
      (sound : (h.tasks t).poisoned ≡ false) (present : (h.tasks t).future ≡ some fut)
      (woken : wake_all (poll fut).wakes h ≡ returned tt h₁) where
    unpoisoned : (h₁.tasks t).poisoned ≡ false
    unpoisoned = let (m, same) = wake_all-eq (poll fut).wakes h woken in rw same sound

    -- A future, in a sound mutex, that returns `Ready` after wakes that return is dropped: the poll
    -- returns, and any later `forward_task` of the same task returns at once and changes nothing.
    pub forward_task-ready :
        (poll fut).polled ≡ ready
        → (h' : Host F) × (forward_task poll t h ≡ returned tt h')
          × (forward_task poll t h' ≡ returned tt h')
    unfolding forward_task
    forward_task-ready end = (
      update_task t (λ task. record task { future = none }) h₁,
      rw (sound, present) (rw (woken, effects) (rw end)),
      rw (==_refl t, unpoisoned),
    )

    pub forward_task-ends :
        (poll fut).polled ≡ ready
        → forward_task poll t h
          ≡ returned tt (update_task t (λ task. record task { future = none }) h₁)
    unfolding forward_task
    forward_task-ends end = rw (sound, present) (rw (woken, effects) (rw end refl))

    -- A pending future keeps the state that the poll left, for the next poll.
    pub forward_task-pending :
        (f : F)
        → (poll fut).polled ≡ pending f
        → forward_task poll t h
          ≡ returned tt (update_task t (λ task. record task { future = some f }) h₁)
    unfolding forward_task
    forward_task-pending f end = rw (sound, present) (rw (woken, effects) (rw end refl))

    -- A panic in a poll whose wakes return, with room in the panic channel, is caught: the executor
    -- goes on, the panic is reported, and every other task is as the wakes left it. But the task's
    -- mutex is poisoned: the next `forward_task` of that task panics outside `catch_unwind`.
    pub forward_task-panics :
        (poll fut).polled ≡ panics
        → h.panic_tx.receiver ≡ true
        → length h.panic_tx.queue < h.panic_tx.bound
        → (forward_task poll t h ≡ returned tt (poisoned_host t h₁))
          × (forward_task poll t (poisoned_host t h₁) ≡ panicked (poisoned_host t h₁))
    unfolding forward_task
    forward_task-panics end alive room =
        let (m, same) = wake_all-eq (poll fut).wakes h woken in
        let alive₁ : h₁.panic_tx.receiver ≡ true = rw same alive in
        let room₁ : length h₁.panic_tx.queue < h₁.panic_tx.bound = rw same room in
        (
          rw (sound, present)
              (rw (woken, effects) (rw (end, effects) (send_panic-sent _ alive₁ room₁))),
          rw (==_refl t),
        )

    -- If a poll whose wakes return panics with the panic channel full, the executor waits inside
    -- `forward_task`, for ever if nobody reads the channel.
    pub forward_task-blocked :
        (poll fut).polled ≡ panics
        → h.panic_tx.receiver ≡ true
        → length h.panic_tx.queue ≡ h.panic_tx.bound
        → forward_task poll t h ≡ blocked
    unfolding forward_task
    forward_task-blocked end alive full =
        let (m, same) = wake_all-eq (poll fut).wakes h woken in
        let alive₁ : h₁.panic_tx.receiver ≡ true = rw same alive in
        let full₁ : length h₁.panic_tx.queue ≡ h₁.panic_tx.bound = rw same full in
        rw (sound, present)
          (rw (woken, effects) (rw (end, effects) (send_panic-full _ alive₁ full₁)))
