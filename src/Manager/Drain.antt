-- ===== src/Manager/Drain.antt =====
-- The executors of `Manager.System` come to rest: the loop of src/executor.rs with `executor_ready`
-- of src/task/manager.rs, while nothing more is handed over.
use min_async_runtime.Base.{
  ℕ, zero, suc, ◌+◌, ◌≤◌, ◌<◌, ◌≡◌, refl, sym, ap, ◌∙◌, inl, inr, ◌⊎◌, Bool, true, false, List, ◌∷◌,
  none, some, returned, List-cases, Bool-cases, ◌==◌, Option-cases, arith,
}
use min_async_runtime.Mpsc.{Mpsc}
use min_async_runtime.Manager.{Manager, ExecutorTask, run_task, finished, create, max_waiting}
use min_async_runtime.Manager.Board.{Board, Shows}
use min_async_runtime.Manager.System.{
  System, Step, submit, refuse, receive, finish, ends, Reach, here, next, Inv, all_tasks, boot,
}
use min_async_runtime.Manager.Moves.{finish_total}
use min_async_runtime.Manager.Invariant.{returned-injective}
use min_async_runtime.Manager.Boot.{idle_system, boot-Reach-Inv}
use min_async_runtime.Manager.Accounts.{
  only, completed, accepted, Spares, NeverAborted, only-Counts,
}
use min_async_runtime.Manager.Once.{Reach-Account}
use min_async_runtime.Manager.Work.{is_service, Service, steps, work_left, Step-work, Reach-work}
use min_async_runtime.Manager.Delivery.{Quiet, AtRest, at_rest_lem, boot-Account}

-- A step that an executor can make, if it finds no task aborted but those of `aborted`.
abbrev pub Move : (ℕ → Bool) → System → Type 0
Move aborted s =
    (u : System) × (step : Step s u) × (is_service step ≡ true)
    × ((t : ℕ) → aborted t ≡ false → Spares t step)

module _ {n cap : ℕ} {s : System} {b : Board} (small : n < cap) (v : Inv n cap s b)
    (aborted : ℕ → Bool) where
  take :
      (e : ℕ) (ch : Mpsc ExecutorTask) (msg : ExecutorTask) (q : List ExecutorTask)
      → s.running e ≡ none
      → b.mail e ≡ some ch
      → ch.queue ≡ msg ∷ q
      → Move aborted s
  take e ch (run_task t) q free found head =
      (_, receive e t ch q free (rw v.shown.mailed found) head, refl, λ u live. tt)
  take e ch finished q free found head = absurd (cc (ap all_tasks head, v.no_stop e ch found))

  live_moves : (e : ℕ) → e < n → s.ended e ≡ false → Quiet s e ⊎ Move aborted s
  live_moves e below alive =
      let (ch, found, _, _, _) = v.seated e below alive in
      elim (Option-cases (s.running e)) [
        | inl free ↦ elim (List-cases ch.queue) [
          | inl empty ↦ inl (
            free,
            λ c there.
                let there' : b.mail e ≡ some c = rw v.shown.mailed at there in
                let same : ch ≡ c = cc (found, there') in rw (← same) empty,
          )
          | inr (msg, q, head) ↦ inr (take e ch msg q free found head)
        ]
        | inr (t, polls) ↦
            let (m, p, _) = finish_total small v aborted e t polls in
            inr (_, finish aborted e t m polls p, refl, λ u live. live)
      ]

  -- One executor is at rest, or can make a step.
  executor_moves : (e : ℕ) → e < n → Quiet s e ⊎ Move aborted s
  executor_moves e below = elim (Bool-cases (s.ended e)) [
    | inl over ↦
        let (_, free, closed) = v.gone e over in
        inl (free, λ c there. (closed c (rw v.shown.mailed at there)).0)
    | inr alive ↦ live_moves e below alive
  ]

  pub can_step : (k : ℕ) → k ≤ n → AtRest k s ⊎ Move aborted s
  can_step zero below = inl (λ e none_below. absurd (omega arith))
  can_step (suc k) below = elim (can_step k (omega arith)) [
    | inl rest ↦ elim (executor_moves k below) [
      | inl quiet ↦ inl (λ e lower. elim (Bool-cases (e == k)) [
        | inl last ↦ let here_now : e ≡ k = ground arith in rw here_now quiet
        | inr other ↦ rest e (ground arith)
      ])
      | inr move ↦ inr move
    ]
    | inr move ↦ inr move
  ]

-- The executors' steps that follow the run `r`.
drain_from :
    {n cap : ℕ} {s₀ : System} (aborted : ℕ → Bool) (fuel : ℕ) {s : System} {b : Board}
    (r : Reach s₀ s)
    → n < cap
    → Inv n cap s b
    → work_left n s b ≤ fuel
    → Service r
    → ((t : ℕ) → aborted t ≡ false → NeverAborted t r)
    → (u : System) × (r' : Reach s₀ u) × AtRest n u
      × Service r'
      × ((t : ℕ) → aborted t ≡ false → NeverAborted t r')
drain_from {n} aborted zero {s} r small v enough service spared =
    elim (can_step small v aborted n (omega arith)) [
      | inl rest ↦ (s, r, rest, service, spared)
      | inr (s₁, step, serves, spares) ↦
          let (b₁, v₁, less) = Step-work step small v serves in absurd (omega (arith, less, enough))
    ]
drain_from {n} aborted (suc fuel) {s} r small v enough service spared =
    elim (can_step small v aborted n (omega arith)) [
      | inl rest ↦ (s, r, rest, service, spared)
      | inr (s₁, step, serves, spares) ↦
          let (b₁, v₁, less) = Step-work step small v serves in
          drain_from aborted fuel (next r step) small v₁ (omega (arith, less, enough))
            (service, serves) (λ t live. (spared t live, spares t live))
    ]

Service-ended : (e : ℕ) {s u : System} (q : Reach s u) → Service q → u.ended e ≡ s.ended e
Service-ended e here service = refl
Service-ended e (next q (submit aborted v m h)) service = absurd (cc (service.1))
Service-ended e (next q (refuse aborted v m h)) service = absurd (cc (service.1))
Service-ended e (next q (receive e' v ch q' free found head)) service = Service-ended e q service.0
Service-ended e (next q (finish aborted e' v m held h)) service = Service-ended e q service.0
Service-ended e (next q (ends e' v ch held found)) service = absurd (cc (service.1))

accepted-Service : {s u : System} (w : ℕ → ℕ) (q : Reach s u) → Service q → accepted q w ≡ 0
accepted-Service w here service = refl
accepted-Service w (next q (submit aborted v m h)) service = absurd (cc (service.1))
accepted-Service w (next q (refuse aborted v m h)) service = absurd (cc (service.1))
accepted-Service w (next q (receive e v ch q' free found head)) service =
    omega (arith, accepted-Service w q service.0)
accepted-Service w (next q (ends e v ch held found)) service = absurd (cc (service.1))
accepted-Service w (next q (finish aborted e v m held h)) service =
    omega (arith, accepted-Service w q service.0)

-- After the registration loop of `build`, for fewer than `max_waiting` workers, at any point of a
-- run in which no two calls of the manager overlap, whatever threads of executors have ended: if
-- from then on nothing is handed over and no thread ends, so that only executors receive tasks and finish polls, then they make at most three
-- steps for each task in the queue, two for each in a mailbox and one for each that is being polled;
-- and they can go on until every mailbox is empty and nothing is polled.
pub executors_rest :
    (n : ℕ) (m : Manager) (s : System)
    → n < max_waiting
    → boot n 0 create ≡ returned tt m
    → Reach (idle_system m) s
    → (b : Board) × Shows s.manager max_waiting b
      × ((u : System) (q : Reach s u) → Service q → steps q ≤ work_left n s b)
      × (u : System) × (q : Reach s u) × Service q
      × AtRest n u
executors_rest n m s small booted r =
    let (m₁, p, all) = boot-Reach-Inv n small in
    let same : m₁ ≡ m = returned-injective (sym p ∙ booted) in
    let (b, v) = all s (rw same r) in
    let (u, q, rest, service, spared) =
      drain_from (λ t. false) (work_left n s b) here small v (omega arith) tt (λ t live. tt) in
    (
      b,
      v.shown,
      λ u' q' service'. let (_, _, less) = Reach-work q' small v service' in omega (arith, less),
      u,
      q,
      service,
      rest,
    )

-- After the registration loop of `build`, for fewer than `max_waiting` workers, at any point of a
-- run in which no two calls of the manager overlap and the thread of executor `left`, one of them, has not ended, and for a task `t` whose
-- abort flag no executor saw set and with which no executor's thread ended: whenever the executors
-- alone, with nothing more handed over and the flag still not seen set, come to a point where they
-- are at rest, `t` has been polled exactly as often as a spawn or a wake of it was accepted; and they
-- can come to such a point.
pub accepted-completed :
    (n t left : ℕ) (m : Manager) (s : System) (r : Reach (idle_system m) s)
    → left < n
    → s.ended left ≡ false
    → n < max_waiting
    → boot n 0 create ≡ returned tt m
    → NeverAborted t r
    → ((u : System) (q : Reach s u)
        → Service q
        → AtRest n u
        → NeverAborted t q
        → completed r (only t) + completed q (only t) ≡ accepted r (only t))
      × (u : System) × (q : Reach s u) × Service q
      × AtRest n u
      × NeverAborted t q
accepted-completed n t left m s r some_executor alive small booted never =
    let (b, v, dropped, kept, sum) = boot-Account n t m s r small booted in
    let (u, q, rest, service, spared) =
      drain_from (λ t. false) (work_left n s b) here small v (omega arith) tt (λ t live. tt) in
    (
      λ u' q' service' rest' never'.
          let (b', v', dropped', kept', sum') = Reach-Account (only t) q' small v in
          omega (
            arith,
            kept never,
            kept' t (only-Counts t) never',
            sum,
            sum',
            at_rest_lem (only t) left some_executor (Service-ended left q' service' ∙ alive) v'
                rest',
            accepted-Service (only t) q' service',
          ),
      u,
      q,
      service,
      rest,
      spared t refl,
    )
