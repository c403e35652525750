-- ===== src/Executor/Drive/Relay.antt =====
-- src/executor.rs: the rounds of `run` in which a task goes from executor to executor.
use min_async_runtime.Base.{
  ℕ, ◌≡◌, refl, sym, ap, ◌<◌, ==_refl, ◌∙◌, true, List, [], ◌∷◌, ◌++◌, none, some, length-append,
  count-append, length, returned, arith, subst,
}
use min_async_runtime.Base.Monad.{effects}
use min_async_runtime.Manager.{Manager, run_task}
use min_async_runtime.Manager.Board.{Shows}
use min_async_runtime.Manager.Refine.{board}
use min_async_runtime.Executor.{
  pending, ready, panics, Poll, Host, wake_all, forward_task, with_manager, serve, ready_again,
}
use min_async_runtime.Executor.Forward.{forward_task-ends, forward_task-panics, poisoned_host}
use min_async_runtime.Executor.Progress.{recv_takes}
use min_async_runtime.Executor.Drive.{
  Ready, Shows-mail, Ready-append, Live, Live-update, Mail, Handed,
}
use min_async_runtime.Executor.Drive.Rounds.{
  mail_of, emptied, taken, polled_host, host_Live, shown_taken, away, at_id, idle_taken, settled,
  yields_alone, yields_on,
}

module _ {F : Type 0} (poll : F → Poll F) (h : Host F) (id cap t : ℕ) (fut : F) where
  -- A poll that yields: the next executor has the task after the round.
  pub yield_round :
      (es : List ℕ) (v : Mail h id cap es (run_task t ∷ []))
      → Live h t (some fut)
      → (f : F) → poll fut ≡ record { wakes = t ∷ []; polled = pending f }
      → (h' : Host F) × (serve poll id h ≡ returned true h')
        × Handed h' cap t (es ++ id ∷ [])
        × Live h' t (some f)
        × (h'.panic_tx ≡ h.panic_tx)
  yield_round [] v l f e = yields_alone poll h id cap t fut v l f e
  yield_round (e₀ ∷ es) v l f e = yields_on poll h id cap t fut e₀ es v l f e

  -- A poll that has come to an end without a wake, in the host `h₂`: the executor is idle too after
  -- the round.
  ends_round :
      (es : List ℕ) (v : Mail h id cap es (run_task t ∷ []))
      → Live h t (some fut)
      → (h₂ : Host F) → forward_task poll t (taken id v.ch h) ≡ returned tt h₂
      → h₂.manager ≡ (taken id v.ch h).manager
      → (m : Manager) × (serve poll id h ≡ returned true (with_manager m h₂))
        × Mail (with_manager m h₂) id cap (es ++ id ∷ []) []
  unfolding serve ready_again
  ends_round es v l h₂ forwarded kept =
      let h₁ = taken id v.ch h in
      let away₁ = away poll h id cap t es fut v l in
      let found = at_id poll h id cap t es fut v l in
      let shown₁ = shown_taken poll h id cap t es fut v l in
      let shown₂ : Shows h₂.manager cap (board [] es (mail_of h₁)) =
        subst (λ m. Shows m cap (board [] es (mail_of h₁))) (sym kept) shown₁ in
      let (m₃, asked, shown₃) =
        settled poll h id cap t es fut v l h₂ h₂.manager es (mail_of h₁) shown₂
          (omega (arith, v.space)) found in
      let idle₃ =
        Ready-append (mail_of h₁) id es away₁ (emptied v.ch, found, refl, v.alive, v.room)
          (idle_taken poll h id cap t es fut v l) in
      (
        m₃,
        rw (recv_takes id t v.ch [] h v.found v.queued)
            (rw (forwarded, effects) (rw (asked, effects) refl)),
        record {
          shown = Shows-mail m₃ cap (es ++ id ∷ []) (mail_of h₁) shown₃;
          ch = emptied v.ch;
          found = ap (λ mail. mail id) shown₃.mailed ∙ found;
          queued = refl;
          alive = v.alive;
          room = v.room;
          seat = ground (arith, count-append id es (id ∷ []), away₁);
          idle = subst (λ mail. Ready mail (es ++ id ∷ [])) (sym shown₃.mailed) idle₃;
          space = omega (arith, length-append es (id ∷ []), v.space);
          some_space = v.some_space;
        },
      )

  -- The poll that is ready.
  pub last_round :
      (es : List ℕ) (v : Mail h id cap es (run_task t ∷ []))
      → Live h t (some fut)
      → poll fut ≡ record { wakes = []; polled = ready }
      → (h' : Host F) × (serve poll id h ≡ returned true h')
        × Mail h' id cap (es ++ id ∷ []) []
        × Live h' t none
        × (h'.panic_tx ≡ h.panic_tx)
  unfolding wake_all
  last_round es v l e =
      let h₁ = taken id v.ch h in
      let forwarded =
        forward_task-ends poll t fut h₁ h₁ l.sound l.state (rw e refl) (ap (λ p. p.polled) e) in
      let live₂ = Live-update none h₁.manager (host_Live poll h id cap t es fut v l) in
      let (m, round, mail) = ends_round es v l (polled_host t none h₁.manager h₁) forwarded refl in
      (
        _,
        round,
        mail,
        record { state = live₂.state; sound = live₂.sound; wanted = live₂.wanted },
        refl,
      )

  -- The poll that panics, with room for the report.
  pub panic_round :
      (es : List ℕ) (v : Mail h id cap es (run_task t ∷ []))
      → Live h t (some fut)
      → poll fut ≡ record { wakes = []; polled = panics }
      → h.panic_tx.receiver ≡ true
      → length h.panic_tx.queue < h.panic_tx.bound
      → (h' : Host F) × (serve poll id h ≡ returned true h')
        × Mail h' id cap (es ++ id ∷ []) []
        × ((h'.tasks t).poisoned ≡ true)
        × (h'.panic_tx ≡ record h.panic_tx { queue = h.panic_tx.queue ++ tt ∷ [] })
  unfolding wake_all
  panic_round es v l e alive room =
      let h₁ = taken id v.ch h in
      let (forwarded, _) =
        forward_task-panics poll t fut h₁ h₁ l.sound l.state (rw e refl) (ap (λ p. p.polled) e)
          alive room in
      let (m, round, mail) = ends_round es v l (poisoned_host t h₁) forwarded refl in
      (_, round, mail, rw (==_refl t) refl, refl)
