-- ===== src/Executor/Drive/Rounds.antt =====
-- src/executor.rs: a round of `run` at an executor that has been handed a task, the others idle.
use min_async_runtime.Base.{
  ℕ, ◌<◌, ◌≡◌, refl, sym, ap, ◌∙◌, true, List, [], ◌∷◌, ◌++◌, Option, some, ==_refl, ◌≢◌, length,
  count, length-append, count-append, returned, arith, subst,
}
use min_async_runtime.Base.Monad.{effects}
use min_async_runtime.Mpsc.{Mpsc}
use min_async_runtime.Manager.{Manager, ExecutorTask, run_task, insert, executor_ready}
use min_async_runtime.Manager.Board.{Shows, post, assign, after_submit}
use min_async_runtime.Manager.Refine.{board, executor_ready_lem, register_or_execute_lem}
use min_async_runtime.Manager.Seats.{post_self, post_ne}
use min_async_runtime.Executor.{
  pending, Poll, Host, has_aborted, wake, wake_all, with_manager, update_task, serve, ready_again,
}
use min_async_runtime.Executor.Forward.{forward_task-pending}
use min_async_runtime.Executor.Progress.{recv_takes}
use min_async_runtime.Executor.Drive.{
  after_ready_none, after_ready_live, Ready, Vacant-CanReceive, Shows-mail, Ready-insert,
  Ready-post, Ready-append, Live, Live-update, Mail,
}

abbrev pub mail_of : {F : Type 0} → Host F → ℕ → Option (Mpsc ExecutorTask)
mail_of h = h.manager.executors

abbrev pub emptied : Mpsc ExecutorTask → Mpsc ExecutorTask
emptied ch = record ch { queue = [] }

-- The host once executor `id` has taken its message.
abbrev pub taken : {F : Type 0} → ℕ → Mpsc ExecutorTask → Host F → Host F
taken id ch h =
    with_manager (record h.manager { executors = insert h.manager.executors id (emptied ch) }) h

first_held : (e : ℕ) (es es' : List ℕ) → es ≡ e ∷ es' → count e es ≢ 0
first_held e es es' first none_held = ground (arith, ap (count e) first, none_held)

-- The host once task `t` has been polled.
abbrev pub polled_host : {F : Type 0} → ℕ → Option F → Manager → Host F → Host F
polled_host t f m h = update_task t (λ task. record task { future = f }) (with_manager m h)

module _ {F : Type 0} (poll : F → Poll F) (h : Host F) (id cap t : ℕ) (es : List ℕ) (fut : F)
    (v : Mail h id cap es (run_task t ∷ [])) (l : Live h t (some fut)) where
  abbrev host : Host F
  host = taken id v.ch h

  abbrev mail : ℕ → Option (Mpsc ExecutorTask)
  mail = mail_of (taken id v.ch h)

  pub host_Live : Live (taken id v.ch h) t (some fut)
  host_Live = record { state = l.state; sound = l.sound; wanted = l.wanted }

  pub shown_taken : Shows (taken id v.ch h).manager cap (board [] es (mail_of (taken id v.ch h)))
  shown_taken = record {
    tasks_held = v.shown.tasks_held;
    idle_held = v.shown.idle_held;
    mailed = refl;
  }

  pub away : count id es ≡ 0
  away = omega (arith, v.seat)

  pub at_id : mail_of (taken id v.ch h) id ≡ some (emptied v.ch)
  at_id = rw (==_refl id) refl

  pub idle_taken : Ready (mail_of (taken id v.ch h)) es
  idle_taken = Ready-insert (mail_of h) id (emptied v.ch) es away v.idle

  -- The task, submitted while it is polled.
  submitted :
      (m : Manager) × (wake t (taken id v.ch h) ≡ returned tt (with_manager m (taken id v.ch h)))
      × Shows m cap (assign t (board [] es (mail_of (taken id v.ch h))))
  unfolding wake
  submitted =
      let (m, p, shown) =
        register_or_execute_lem (has_aborted host) host.manager cap (board [] es mail) shown_taken t
          (λ _ _. omega (arith, v.some_space))
          (λ e es' first.
            Vacant-CanReceive mail e ((idle_taken e).1 (first_held e es es' first))) in
      (m, rw (p, effects) refl, rw (l.wanted, after_submit) at shown)

  -- A round whose poll leaves the manager `m` and the future `f`, and then asks for work.
  round :
      (m : Manager) (w : List ℕ) (f : F)
      → wake_all w (taken id v.ch h) ≡ returned tt (with_manager m (taken id v.ch h))
      → poll fut ≡ record { wakes = w; polled = pending f }
      → (m' : Manager)
      → executor_ready (has_aborted (polled_host t (some f) m (taken id v.ch h))) id m
        ≡ returned tt m'
      → serve poll id h
        ≡ returned true (with_manager m' (polled_host t (some f) m (taken id v.ch h)))
  unfolding serve ready_again
  round m w f woken e m' asked =
      let forwarded =
        forward_task-pending poll t fut host (with_manager m host) l.sound l.state (rw e woken) f
          (ap (λ p. p.polled) e) in
      rw (recv_takes id t v.ch [] h v.found v.queued)
        (rw (forwarded, effects) (rw (asked, effects) refl))

  -- The manager, asked for work by the executor when no task waits and `es'` are idle.
  pub settled :
      (h' : Host F) (m : Manager) (es' : List ℕ) (mail' : ℕ → Option (Mpsc ExecutorTask))
      → Shows m cap (board [] es' mail')
      → length es' < cap
      → mail' id ≡ some (emptied v.ch)
      → (m' : Manager) × (executor_ready (has_aborted h') id m ≡ returned tt m')
        × Shows m' cap (board [] (es' ++ id ∷ []) mail')
  settled h' m es' mail' shown fits found =
      let (m', p, shown') =
        executor_ready_lem (has_aborted h') m cap (board [] es' mail') shown id fits
          (emptied v.ch, found, v.alive, v.room) in
      (m', p, subst (Shows m' cap) (after_ready_none (has_aborted h') id es' mail') shown')

module _ {F : Type 0} (poll : F → Poll F) (h : Host F) (id cap t : ℕ) (fut : F) where
  -- With nobody else idle, the executor gets the task that has yielded back.
  pub yields_alone :
      (v : Mail h id cap [] (run_task t ∷ []))
      → Live h t (some fut)
      → (f : F) → poll fut ≡ record { wakes = t ∷ []; polled = pending f }
      → (h' : Host F) × (serve poll id h ≡ returned true h')
        × Mail h' id cap [] (run_task t ∷ [])
        × Live h' t (some f)
        × (h'.panic_tx ≡ h.panic_tx)
  unfolding wake_all
  yields_alone v l f e =
      let h₁ = taken id v.ch h in
      let mail₁ = mail_of h₁ in
      let (m₂, woken, shown₂) = submitted poll h id cap t [] fut v l in
      let h₂ = polled_host t (some f) m₂ h₁ in
      let live₂ = Live-update (some f) m₂ (host_Live poll h id cap t [] fut v l) in
      let found = at_id poll h id cap t [] fut v l in
      let (m₃, asked, shown₃) =
        executor_ready_lem (has_aborted h₂) m₂ cap (board (t ∷ []) [] mail₁) shown₂ id
          (omega (arith, v.some_space)) (emptied v.ch, found, v.alive, v.room) in
      let settled₃ : Shows m₃ cap (board [] [] (post mail₁ id t)) =
        subst (Shows m₃ cap) (after_ready_live (has_aborted h₂) id t mail₁ live₂.wanted) shown₃ in
      (
        with_manager m₃ h₂,
        round poll h id cap t [] fut v l m₂ (t ∷ []) f (rw (woken, effects) refl) e m₃ asked,
        record {
          shown = Shows-mail m₃ cap [] (post mail₁ id t) settled₃;
          ch = record v.ch { queue = run_task t ∷ [] };
          found = ap (λ mail. mail id) settled₃.mailed ∙ post_self mail₁ id t (emptied v.ch) found;
          queued = refl;
          alive = v.alive;
          room = v.room;
          seat = refl;
          idle = λ e. (omega arith, λ held. absurd (held refl));
          space = v.space;
          some_space = v.some_space;
        },
        record { state = live₂.state; sound = live₂.sound; wanted = live₂.wanted },
        refl,
      )

  -- The executor that has been idle the longest gets a task that has yielded.
  pub yields_on :
      (e₀ : ℕ) (es : List ℕ) (v : Mail h id cap (e₀ ∷ es) (run_task t ∷ []))
      → Live h t (some fut)
      → (f : F) → poll fut ≡ record { wakes = t ∷ []; polled = pending f }
      → (h' : Host F) × (serve poll id h ≡ returned true h')
        × Mail h' e₀ cap (es ++ id ∷ []) (run_task t ∷ [])
        × Live h' t (some f)
        × (h'.panic_tx ≡ h.panic_tx)
  unfolding wake_all
  yields_on e₀ es v l f e =
      let h₁ = taken id v.ch h in
      let mail₁ = mail_of h₁ in
      let (m₂, woken, shown₂) = submitted poll h id cap t (e₀ ∷ es) fut v l in
      let h₂ = polled_host t (some f) m₂ h₁ in
      let live₂ = Live-update (some f) m₂ (host_Live poll h id cap t (e₀ ∷ es) fut v l) in
      let away₀ = away poll h id cap t (e₀ ∷ es) fut v l in
      let idle₁ = idle_taken poll h id cap t (e₀ ∷ es) fut v l in
      let (c, at_e₀, empty, alive, room) = (idle₁ e₀).1 (first_held e₀ (e₀ ∷ es) es refl) in
      let found =
        post_ne mail₁ e₀ t id (ground (arith, away₀)) ∙ at_id poll h id cap t (e₀ ∷ es) fut v l in
      let (m₃, asked, shown₃) =
        settled poll h id cap t (e₀ ∷ es) fut v l h₂ m₂ es (post mail₁ e₀ t) shown₂
          (omega (arith, v.space)) found in
      let idle₃ =
        Ready-append (post mail₁ e₀ t) id es (omega (arith, away₀))
          (emptied v.ch, found, refl, v.alive, v.room) (Ready-post mail₁ e₀ t es idle₁) in
      (
        with_manager m₃ h₂,
        round poll h id cap t (e₀ ∷ es) fut v l m₂ (t ∷ []) f (rw (woken, effects) refl) e m₃ asked,
        record {
          shown = Shows-mail m₃ cap (es ++ id ∷ []) (post mail₁ e₀ t) shown₃;
          ch = record c { queue = c.queue ++ run_task t ∷ [] };
          found = ap (λ mail. mail e₀) shown₃.mailed ∙ post_self mail₁ e₀ t c at_e₀;
          queued = ap (λ q. q ++ run_task t ∷ []) empty;
          alive = alive;
          room = room;
          seat = ground (arith, count-append e₀ es (id ∷ []), away₀, (idle₁ e₀).0);
          idle = subst (λ mail. Ready mail (es ++ id ∷ [])) (sym shown₃.mailed) idle₃;
          space = omega (arith, length-append es (id ∷ []), v.space);
          some_space = v.some_space;
        },
        record { state = live₂.state; sound = live₂.sound; wanted = live₂.wanted },
        refl,
      )
