-- ===== src/Runtime/Blocking.antt =====
-- src/runtime.rs `run_blocking` on a runtime with any number of workers, and the executors of
-- src/executor.rs that work for it.
use min_async_runtime.Base.{
  ℕ, zero, suc, ◌≡◌, refl, ap, ◌∙◌, Bool, true, false, List, [], ◌∷◌, ◌++◌, ◌<◌, Option, none, some,
  ==_refl, ◌==◌, if◌then◌else◌, returned,
}
use min_async_runtime.Base.Monad.{M, pure, ◌>>=◌, ◌>>◌, modify, on, effects}
use min_async_runtime.Mpsc.{Mpsc, sync_channel, Sent, sent, full, disconnected}
use min_async_runtime.Mpsc
use min_async_runtime.Manager.{
  Manager, ExecutorTask, run_task, finished, max_waiting, register_or_execute_non_blocking_task,
}
use min_async_runtime.Spawner.{place_task, new_task}
use min_async_runtime.Runtime.{Runtime, Thread, run_blocking, with_manager}
use min_async_runtime.Runtime.Guard.{run_blocking_lem}
use min_async_runtime.Executor.{Polled, pending, ready, panics, Poll, Host, serve}
use min_async_runtime.Runtime.Workers.{Covers, Rests, Mail-Rests, Covers-turned, handed}
use min_async_runtime.Executor.Drive.{Yields, last, yield, Live, Mail, Handed, relay, turned}
use min_async_runtime.Executor.Drive.Relay.{yield_round, last_round}

-- The host of the workers, and the channel on which the wrapped future sends its output.
pub record Call (F T : Type 0) : Type 0 where
  pub host : Host F
  pub rx : Mpsc T

-- The new task has been handed over, and nothing has been sent back.
abbrev pub started : {F T : Type 0} → ℕ → ℕ → F → Manager → Host F → Call F T
started task tag fut m h = record {
  host = record (place_task task (new_task tag fut) h) { manager = m };
  rx = sync_channel 1;
}

module _ {F T : Type 0} (poll : F → Poll F) (value : F → T) where
  -- The output of a future that is ready when it is polled now.
  abbrev pub output_of : Polled F → F → Option T
  output_of (pending f) fut = none
  output_of ready fut = some (value fut)
  output_of panics fut = none

  abbrev pub output_in : Option F → Option T
  output_in none = none
  output_in (some fut) = output_of (poll fut).polled fut

  abbrev pub is_for : ℕ → List ExecutorTask → Bool
  is_for t [] = false
  is_for t (run_task u ∷ q) = u == t
  is_for t (finished ∷ q) = false

  abbrev pub next_for : ℕ → Option (Mpsc ExecutorTask) → Bool
  next_for t none = false
  next_for t (some ch) = is_for t ch.queue

  -- What `tx.send(res)` sends in the next round of executor `id`, if that polls task `t`.
  abbrev pub output_now : ℕ → ℕ → Host F → Option T
  output_now id t h =
      if next_for t (h.manager.executors id)
      then if (h.tasks t).poisoned then none else output_in (h.tasks t).future
      else none

  -- `let _ = tx.send(res)`
  abbrev pub send_output : Option T → Mpsc T → Mpsc T
  send_output none rx = rx
  send_output (some res) rx = elim (Mpsc.send rx res) [
    | sent ch ↦ ch
    | full ↦ rx
    | disconnected ↦ rx
  ]

  abbrev pub with_host : Host F → Call F T → Call F T
  with_host h c = record c { host = h }

  -- A round of executor `id`, with the wrapped future of task `t`.
  unfoldable pub blocking_round : ℕ → ℕ → M (Call F T) Bool
  blocking_round id t c =
      (do
        more ← on (λ c'. c'.host) with_host (serve poll id)
        modify (λ c'. record c' { rx = send_output (output_now id t c.host) c'.rx })
        pure more)
        c

  -- The rounds of the executors, in the order of the list.
  unfoldable pub blocking_rounds : List ℕ → ℕ → M (Call F T) (Unit {0})
  blocking_rounds [] t = pure tt
  blocking_rounds (id ∷ ids) t = do blocking_round id t; blocking_rounds ids t

  pub output_now_lem :
      (id t cap : ℕ) (es : List ℕ) (fut : F) (h : Host F)
      → Mail h id cap es (run_task t ∷ [])
      → Live h t (some fut)
      → output_now id t h ≡ output_of (poll fut).polled fut
  output_now_lem id t cap es fut h v l =
      let mine : next_for t (h.manager.executors id) ≡ true =
        ap (next_for t) v.found ∙ ap (is_for t) v.queued ∙ ==_refl t in
      rw (mine, l.sound, l.state) refl

  rounds_lem :
      (t cap k : ℕ) (order : List ℕ) (end fut : F) (c : Call F T)
      → Yields poll t end k fut
      → Handed c.host cap t order
      → Live c.host t (some fut)
      → c.rx ≡ sync_channel 1
      → (id : ℕ) × (c' : Call F T) × (blocking_rounds (relay (suc k) order) t c ≡ returned tt c')
        × (c'.rx ≡ record (sync_channel 1) { queue = value end ∷ [] })
        × Mail c'.host id cap (turned (suc k) order) []
        × Live c'.host t none
        × (c'.host.panic_tx ≡ c.host.panic_tx)
  unfolding blocking_rounds blocking_round
  rounds_lem t cap k [] end fut c ys v l fresh = absurd v
  rounds_lem t cap zero (id ∷ es) end fut c (last e) v l fresh =
      let (h', p, v', l', kept) = last_round poll c.host id cap t end es v l e in
      let now : output_now id t c.host ≡ some (value end) =
        output_now_lem id t cap es end c.host v l ∙ ap (λ p. output_of p.polled end) e in
      (
        id,
        record { host = h'; rx = send_output (output_now id t c.host) c.rx },
        rw (p, effects) refl,
        rw (now, fresh) refl,
        v',
        l',
        kept,
      )
  rounds_lem t cap (suc k) (id ∷ es) end fut c (yield {f} e ys) v l fresh =
      let (h', p, v', l', kept) = yield_round poll c.host id cap t fut es v l f e in
      let now : output_now id t c.host ≡ none =
        output_now_lem id t cap es fut c.host v l ∙ ap (λ p. output_of p.polled fut) e in
      let c₁ : Call F T = record { host = h'; rx = send_output (output_now id t c.host) c.rx } in
      let (last_id, c', q, sent_value, v₂, l₂, kept₂) =
        rounds_lem t cap k (es ++ id ∷ []) end f c₁ ys v' l' (rw now fresh) in
      (last_id, c', rw (p, effects) q, sent_value, v₂, l₂, kept₂ ∙ kept)

pub Live-started :
    {F : Type 0} (T : Type 0) (task tag : ℕ) (fut : F) (m : Manager) (h : Host F)
    → Live (started {T = T} task tag fut m h).host task (some fut)
Live-started T task tag fut m h = record {
  state = rw (==_refl task) refl;
  sound = rw (==_refl task) refl;
  wanted = rw (==_refl task) refl;
}

module _ {F T J : Type 0} (poll : F → Poll F) (value : F → T) where
  -- One call on a thread that has a runtime, whose `n` workers are idle.
  pub run_blocking-rounds :
      (t : Thread J) (n task tag k : ℕ) (end fut : F) (h : Host F) (rt : Runtime)
      → 0 < n
      → t.runtime ≡ some rt
      → t.manager ≡ some h.manager
      → Rests n h.manager
      → Yields poll task end k fut
      → (order : List ℕ) × (m : Manager) × (c : Call F T) × Covers n order
        × (run_blocking task (some (value end)) [] t ≡ returned (value end) (with_manager m t))
        × (blocking_rounds poll value (relay (suc k) order) task (started task tag fut m h)
            ≡ returned tt c)
        × (c.rx.queue ≡ value end ∷ [])
        × ((c.host.tasks task).future ≡ none)
        × Rests n c.host.manager
        × (register_or_execute_non_blocking_task (λ t. false) task h.manager ≡ returned tt m)
        × (c.host.panic_tx ≡ h.panic_tx)
  run_blocking-rounds t n task tag k end fut h rt some_worker has_runtime managed rests ys =
      let h₁ = place_task task (new_task tag fut) h in
      let (order, m, all, accepted, v) =
        handed n (λ t. false) task h₁ h.manager some_worker rests refl in
      let (id, c, q, result, v₂, l₂, kept) =
        rounds_lem poll value task max_waiting k order end fut (started task tag fut m h) ys v
          (Live-started T task tag fut m h) refl in
      (
        order,
        m,
        c,
        all,
        (run_blocking_lem task 0 (value end) rt h.manager m t has_runtime managed accepted).0,
        q,
        ap (λ ch. ch.queue) result,
        l₂.state,
        Mail-Rests n id c.host (turned (suc k) order) (Covers-turned n (suc k) order all) v₂,
        accepted,
        kept,
      )
