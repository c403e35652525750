-- ===== src/Manager/Overlap/Stranded.antt =====
-- src/task/manager.rs: `register_or_execute_non_blocking_task` between the two uses of the ring
-- buffers that `executor_ready` makes, or the other way round.
use min_async_runtime.Base.{
  ℕ, zero, suc, ◌<◌, ◌≡◌, ◌≢◌, refl, ap, Bool, true, false, List, [], ◌∷◌, Option, none, some,
  length, count, get_elem?, ◌==◌, panicked, arith,
}
use min_async_runtime.Base.Monad.{effects}
use min_async_runtime.Mpsc.{Mpsc}
use min_async_runtime.Manager.{Manager, ExecutorTask}
use min_async_runtime.Manager.Board.{Shows}
use min_async_runtime.Manager.Refine.{
  board, push_executor_lem, push_task_lem, pop_task-none, pop_executor-none,
}
use min_async_runtime.Manager.System.{clear, busy}
use min_async_runtime.Manager.Overlap.{
  Call, registers, seeks, stores, is_ready, checks, waits, delivers, over, call_step, Threads, Turn,
  hands, goes_on, unwinds, receives, asks, Turns, start, then_turn,
}
use min_async_runtime.Manager.Overlap.Places.{Placed}
use min_async_runtime.Manager.Overlap.Kept.{polling_below, channel_below}

-- The step hands a task over, or is made by another of the `n` executors than `e`.
abbrev pub Elsewhere : {s u : Threads} → ℕ → ℕ → Turn s u → Type 0
Elsewhere n e (hands t) = Unit
Elsewhere n e (goes_on aborted i c c' m more found p) = ⊥
Elsewhere n e (unwinds aborted i c m found p) = ⊥
Elsewhere n e (receives j t ch q free found head) = (j ≢ e) × (j < n)
Elsewhere n e (asks j t polling) = (j ≢ e) × (j < n)

abbrev working : Call → Bool
working (registers t) = true
working (seeks t) = true
working (stores t) = true
working (is_ready e) = true
working (checks e t) = true
working (waits e) = true
working (delivers e t) = true
working over = false

working-ne-over : (c : Call) → working c ≡ true → c ≢ over
working-ne-over c w h = absurd (cc (w, ap working h))

abbrev pub threads : Manager → (ℕ → Option ℕ) → List Call → Threads
threads m running calls = record { manager = m; running = running; calls = calls }

both_over : (i : ℕ) (c : Call) → get_elem? (over ∷ over ∷ []) i ≡ some c → c ≡ over
both_over zero c found = cc
both_over (suc zero) c found = cc
both_over (suc (suc i)) c found = absurd (cc)

over-returns :
    (aborted : ℕ → Bool) (c : Call) (m m' : Manager)
    → c ≡ over
    → call_step aborted c m ≡ panicked m'
    → ⊥
unfolding call_step
over-returns aborted c m m' at p =
    let q : call_step aborted over m ≡ panicked m' = rw at at p in cc (q)

module _ (aborted : ℕ → Bool) (n cap e x t : ℕ) (m : Manager) (running : ℕ → Option ℕ)
    (mail : ℕ → Option (Mpsc ExecutorTask)) (small : n < cap)
    (v : Placed n cap (threads m running []) (board [] [] mail)) (polls : running e ≡ some x)
    (live : aborted t ≡ false) where
  strand :
      (m' : Manager) × Turns
        (threads m running [])
        (threads m' (clear running e) (over ∷ over ∷ []))
      × Shows m' cap (board (t ∷ []) (e ∷ []) mail)
  unfolding call_step
  strand =
      let (m₁, p₁, shown₁) = push_executor_lem e v.shown (omega arith) in
      let (m₂, p₂, shown₂) = push_task_lem t shown₁ (omega arith) in
      let r₁ = then_turn start (hands t) in
      let r₂ = then_turn r₁ (
        goes_on aborted 0 (registers t) (seeks t) m (working-ne-over (registers t) refl) refl
          (rw live refl)) in
      let r₃ = then_turn r₂ (
        goes_on aborted 0 (seeks t) (stores t) m (working-ne-over (seeks t) refl) refl
          (rw (pop_executor-none v.shown refl, effects) refl)) in
      let r₄ = then_turn r₃ (asks e x polls) in
      let r₅ = then_turn r₄ (
        goes_on aborted 1 (is_ready e) (waits e) m (working-ne-over (is_ready e) refl) refl
          (rw (pop_task-none v.shown refl, effects) refl)) in
      let r₆ = then_turn r₅ (
        goes_on aborted 1 (waits e) over m₁ (working-ne-over (waits e) refl) refl
          (rw (p₁, effects) refl)) in
      let r₇ = then_turn r₆ (
        goes_on aborted 0 (stores t) over m₂ (working-ne-over (stores t) refl) refl
          (rw (p₂, effects) refl)) in
      (m₂, r₇, shown₂)

  -- The executors' places after that.
  strand-Placed :
      (m' : Manager)
      → Shows m' cap (board (t ∷ []) (e ∷ []) mail)
      → Placed n cap
          (threads m' (clear running e) (over ∷ over ∷ []))
          (board (t ∷ []) (e ∷ []) mail)
  strand-Placed m' shown = record {
    shown = shown;
    seated = λ j below.
        let (ch, there, alive, bound, once) = v.seated j below in
        (ch, there, alive, bound, ground (arith, once, ap busy polls));
    others = λ j above.
        let (not_idle, free, missing, not_called) = v.others j above in
        let ne : (j == e) ≡ false = ground (arith, polling_below small v e x polls) in
        (ground arith, rw ne free, missing, refl);
  }

  elsewhere :
      (m' : Manager) (u : Threads)
      → Shows m' cap (board (t ∷ []) (e ∷ []) mail)
      → (turn : Turn (threads m' (clear running e) (over ∷ over ∷ [])) u) → Elsewhere n e turn
  elsewhere m' u shown (hands j) = tt
  elsewhere m' u shown (goes_on ab i c c' m'' more found p) = more (both_over i c found)
  elsewhere m' u shown (unwinds ab i c m'' found p) =
      over-returns ab c m' m'' (both_over i c found) p
  elsewhere m' u shown (receives j t' ch q free found head) =
      let v' = strand-Placed m' shown in
      let there : mail j ≡ some ch = rw shown.mailed at found in
      let below = channel_below small v' j ch there in
      let (ch', there', _, _, once) = v'.seated j below in
      let same : ch' ≡ ch = cc (there, there') in
      (
        λ at.
            let idle : count j (e ∷ []) ≡ 1 = ground arith in
            omega (arith, once, idle, ap (λ y. length y.queue) same, ap length head),
        below,
      )
  elsewhere m' u shown (asks j t' busy_now) =
      let v' = strand-Placed m' shown in
      let below = polling_below small v' j t' busy_now in
      (λ at. let free : clear running e j ≡ none = ground arith in cc, below)

  -- Executor `e` polls its last task, nobody is idle, no task waits and nobody calls the manager; a
  -- live task `t` is handed over while `e` asks for more. If the one call finds no idle executor
  -- and the other no waiting task, before either is put in its queue, both calls return, and then
  -- `t` waits while `e` is idle. After that the next step can only be another handover, or that of
  -- another executor, which still polls or has a message: with one worker `t` is not run, though its
  -- executor is free, until another task is handed over.
  pub handover_strands :
      (m' : Manager) × Turns
        (threads m running [])
        (threads m' (clear running e) (over ∷ over ∷ []))
      × Shows m' cap (board (t ∷ []) (e ∷ []) mail)
      × ((u : Threads) (turn : Turn (threads m' (clear running e) (over ∷ over ∷ [])) u)
          → Elsewhere n e turn)
  handover_strands =
      let (m', r, shown) = strand in (m', r, shown, λ u turn. elsewhere m' u shown turn)
