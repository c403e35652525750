-- ===== src/Executor/Serve.antt =====
-- src/executor.rs `run`: a round of the loop is a run of steps of `Manager.System`.
use min_async_runtime.Base.{
  ℕ, ◌≡◌, refl, Bool, true, false, List, [], ◌∷◌, Option, none, some, Bool-cases, inl, inr, Exit,
  returned, panicked, blocked, exhausted, faulted, arith,
}
use min_async_runtime.Base.Monad.{
  M, pure, ◌>>◌, chain, caught, place, catch_unwind, place-returned, chain-returned,
}
use min_async_runtime.Mpsc.{
  Mpsc, Sent, sent, full, disconnected, Received, received, empty, hung_up,
}
use min_async_runtime.Mpsc
use min_async_runtime.Manager.{
  Manager, ExecutorTask, run_task, finished, insert, register_or_execute_non_blocking_task,
}
use min_async_runtime.Manager.System.{
  System, Step, submit, refuse, receive, finish, Reach, next, clear,
}
use min_async_runtime.Executor.{
  Polled, pending, ready, panics, Poll, Host, has_aborted, wake, wake_all, forward_task,
  forward_unlocked, poll_future, conclude, send_panic, with_manager, serve, recv, handle,
  ready_again, take_message, receive_from, report,
}

module _ {F : Type 0} (start : System) (running : ℕ → Option ℕ) (ended : ℕ → Bool) where
  abbrev pub At : Host F → Type 0
  At h = Reach start (record { manager = h.manager; running = running; ended = ended })

  -- However the call ends, the manager is then in a reachable state.
  abbrev pub Traced : {A : Type 0} → Exit (Host F) A → Type 0
  Traced (returned a h) = At h
  Traced (panicked h) = At h
  Traced blocked = Unit {0}
  Traced exhausted = Unit {0}
  Traced faulted = Unit {0}

  chain-Traced :
      {A B : Type 0} (x : Exit (Host F) A) (f : A → M (Host F) B)
      → Traced x
      → ((a : A) (h : Host F) → At h → Traced (f a h))
      → Traced (chain x f)
  chain-Traced (returned a h) f t k = k a h t
  chain-Traced (panicked h) f t k = t
  chain-Traced blocked f t k = tt
  chain-Traced exhausted f t k = tt
  chain-Traced faulted f t k = tt

  caught-Traced : {A : Type 0} (x : Exit (Host F) A) → Traced x → Traced (caught x)
  caught-Traced (returned a h) t = t
  caught-Traced (panicked h) t = t
  caught-Traced blocked t = tt
  caught-Traced exhausted t = tt
  caught-Traced faulted t = tt

  submit-Traced :
      (t : ℕ) (h : Host F) (x : Exit Manager (Unit {0}))
      → At h
      → register_or_execute_non_blocking_task (has_aborted h) t h.manager ≡ x
      → Traced (place with_manager h x)
  submit-Traced t h (returned u m) r e = next r (submit (has_aborted h) t m e)
  submit-Traced t h (panicked m) r e = next r (refuse (has_aborted h) t m e)
  submit-Traced t h blocked r e = tt
  submit-Traced t h exhausted r e = tt
  submit-Traced t h faulted r e = tt

  wake_all-Traced : (ts : List ℕ) (h : Host F) → At h → Traced (wake_all ts h)
  unfolding wake_all wake
  wake_all-Traced [] h r = r
  wake_all-Traced (t ∷ ts) h r =
      chain-Traced (wake t h) (λ _. wake_all ts) (submit-Traced t h _ r refl)
        (λ _ h₁ r₁. wake_all-Traced ts h₁ r₁)

  conclude-Traced : (t : ℕ) (p : Polled F) (h : Host F) → At h → Traced (conclude t p h)
  conclude-Traced t (pending f) h r = r
  conclude-Traced t ready h r = r
  conclude-Traced t panics h r = r

  send_panic-Traced : (h : Host F) → At h → Traced (send_panic h)
  unfolding send_panic
  send_panic-Traced h r = told (Mpsc.send h.panic_tx tt) refl
    where
      told : (x : Sent (Unit {0})) → Mpsc.send h.panic_tx tt ≡ x → Traced (send_panic h)
      told (sent ch) e = rw (e, Traced) r
      told full e = rw (e, Traced) tt
      told disconnected e = rw (e, Traced) r

  report-Traced : (t : ℕ) (fine : Bool) (h : Host F) → At h → Traced (report t fine h)
  report-Traced t true h r = r
  report-Traced t false h r = send_panic-Traced _ r

  module _ (poll : F → Poll F) where
    forward-Traced :
        (t : ℕ) (fut : Option F) (h : Host F) → At h → Traced (forward_unlocked poll t fut h)
    forward-Traced t none h r = r
    forward-Traced t (some fut) h r =
        chain-Traced (catch_unwind (poll_future poll t fut) h) (report t)
          (caught-Traced (poll_future poll t fut h) (
            chain-Traced (wake_all (poll fut).wakes h) (λ _. conclude t (poll fut).polled)
              (wake_all-Traced (poll fut).wakes h r)
              (λ _ h₁ r₁. conclude-Traced t (poll fut).polled h₁ r₁)))
          (report-Traced t)

    pub forward_task-Traced : (t : ℕ) (h : Host F) → At h → Traced (forward_task poll t h)
    unfolding forward_task
    forward_task-Traced t h r = elim (Bool-cases (h.tasks t).poisoned) [
      | inl bad ↦ rw (bad, Traced) r
      | inr good ↦ rw (good, Traced) (forward-Traced t (h.tasks t).future h r)
    ]

abbrev pub system : {F : Type 0} → Host F → (ℕ → Option ℕ) → (ℕ → Bool) → System
system h running ended = record { manager = h.manager; running = running; ended = ended }

module _ {F : Type 0} (id t : ℕ) (h h₁ : Host F) (running : ℕ → Option ℕ) (ended : ℕ → Bool)
    (free : running id ≡ none) where
  take_message-receive :
      (ch : Mpsc ExecutorTask) (q : List ExecutorTask)
      → h.manager.executors id ≡ some ch
      → ch.queue ≡ q
      → take_message id h (Mpsc.receive q ch) ≡ returned (some (run_task t)) h₁
      → Step (system h running ended) (system h₁ (insert running id t) ended)
  take_message-receive ch [] found e p = absurd (ground arith)
  take_message-receive ch (msg ∷ q) found e p =
      let task : msg ≡ run_task t = ground arith in
      let after : with_manager
            (record h.manager {
              executors = insert h.manager.executors id (record ch { queue = q });
            })
            h
          ≡ h₁ =
        cc in
      rw (← after) (receive id t ch q free found (rw (← task) e))

  receive_from-receive :
      (o : Option (Mpsc ExecutorTask))
      → h.manager.executors id ≡ o
      → receive_from id h o ≡ returned (some (run_task t)) h₁
      → Step (system h running ended) (system h₁ (insert running id t) ended)
  receive_from-receive none found p = absurd (cc)
  receive_from-receive (some ch) found p = take_message-receive ch ch.queue found refl p

  -- A message taken from executor `id`'s channel.
  recv-receive :
      recv id h ≡ returned (some (run_task t)) h₁
      → Step (system h running ended) (system h₁ (insert running id t) ended)
  unfolding recv
  recv-receive p = receive_from-receive (h.manager.executors id) refl p

module _ {F : Type 0} (poll : F → Poll F) (start : System) (id : ℕ) (running : ℕ → Option ℕ)
    (ended : ℕ → Bool) (free : running id ≡ none) where
  handle-Reach :
      (msg : Option ExecutorTask) (h h₁ h' : Host F)
      → Reach start (system h running ended)
      → recv id h ≡ returned msg h₁
      → handle poll id msg h₁ ≡ returned true h'
      → (t : ℕ) × Reach start (system h' (clear (insert running id t) id) ended)
  unfolding ready_again
  handle-Reach none h h₁ h' r p e = absurd (cc)
  handle-Reach (some finished) h h₁ h' r p e = absurd (cc)
  handle-Reach (some (run_task t)) h h₁ h' r p e =
      let polling = insert running id t in
      let r₁ = next r (recv-receive id t h h₁ running ended free p) in
      let (_, h₂, p₂, e₂) =
        chain-returned (forward_task poll t h₁) (λ _. ready_again id >> pure true) e in
      let r₂ : Reach start (system h₂ polling ended) =
        rw (p₂, Traced) at (forward_task-Traced start polling ended poll t h₁ r₁) in
      let (_, h₃, p₃, e₃) = chain-returned (ready_again id h₂) (λ _. pure true) e₂ in
      let (m, p₄, same) = place-returned with_manager h₂ _ p₃ in
      let final : h₃ ≡ h' = cc in
      let here_now : polling id ≡ some t = ground arith in
      (t, rw (← final, same) (next r₂ (finish (has_aborted h₂) id t m here_now p₄)))

  -- A system that is reachable before a round of `run` that goes on to the next is reachable after
  -- it, with the executor polling nothing.
  pub serve-Reach :
      (h h' : Host F)
      → Reach start (system h running ended)
      → serve poll id h ≡ returned true h'
      → (t : ℕ) × Reach start (system h' (clear (insert running id t) id) ended)
  unfolding serve
  serve-Reach h h' r e =
      let (msg, h₁, p, q) = chain-returned (recv id h) (handle poll id) e in
      handle-Reach msg h h₁ h' r p q
