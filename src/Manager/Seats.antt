-- ===== src/Manager/Seats.antt =====
-- What one step of `Manager.System` does to the place of each executor.
use min_async_runtime.Base.{
  ℕ, ◌≡◌, ◌≢◌, ◌∙◌, refl, inl, inr, true, Option-cases, List, [], ◌∷◌, ◌++◌, Option, none, some,
  length-append, count-append, ◌==◌, Bool-cases, arith,
}
use min_async_runtime.Mpsc.{Mpsc}
use min_async_runtime.Manager.{ExecutorTask, run_task, finished, insert}
use min_async_runtime.Manager.Board.{post}
use min_async_runtime.Manager.System.{Seat, clear, all_tasks, AllTasks}

module _ (mail : ℕ → Option (Mpsc ExecutorTask)) where
  pub post_self :
      (id t : ℕ) (ch : Mpsc ExecutorTask)
      → mail id ≡ some ch
      → post mail id t id ≡ some (record ch { queue = ch.queue ++ run_task t ∷ [] })
  post_self id t ch found = rw (found, post) (ground arith)

  pub post_ne : (id t j : ℕ) → id ≢ j → post mail id t j ≡ mail j
  post_ne id t j ne = ground arith

  -- The executor that has been idle the longest gets a message.
  pub Seat-submit :
      (e₀ t : ℕ) (es : List ℕ) (running : ℕ → Option ℕ) (e : ℕ)
      → Seat mail (e₀ ∷ es) running e
      → Seat (post mail e₀ t) es running e
  Seat-submit e₀ t es running e (ch, found, alive, bound, once) = elim (Bool-cases (e₀ == e)) [
    | inl same ↦
        let id : e₀ ≡ e = ground arith in
        (
          record ch { queue = ch.queue ++ run_task t ∷ [] },
          rw id (post_self e t ch found),
          alive,
          bound,
          ground (arith, length-append ch.queue (run_task t ∷ [])),
        )
    | inr other ↦ (ch, post_ne e₀ t e (ground arith) ∙ found, alive, bound, ground arith)
  ]

  -- An executor takes its message and polls the task.
  pub Seat-receive :
      (e₀ t : ℕ) (ch₀ : Mpsc ExecutorTask) (q : List ExecutorTask) (es : List ℕ)
      (running : ℕ → Option ℕ) (e : ℕ)
      → running e₀ ≡ none
      → mail e₀ ≡ some ch₀
      → ch₀.queue ≡ run_task t ∷ q
      → Seat mail es running e
      → Seat (insert mail e₀ (record ch₀ { queue = q })) es (insert running e₀ t) e
  Seat-receive e₀ t ch₀ q es running e free found₀ head (ch, found, alive, bound, once) =
      elim (Bool-cases (e == e₀)) [
        | inl same ↦
            let one : some ch ≡ some ch₀ = ground arith in
            (record ch₀ { queue = q }, rw same, ground arith, ground arith, ground arith)
        | inr other ↦ (ch, ground arith, alive, bound, ground arith)
      ]

  -- An executor that has finished is idle again.
  pub Seat-idle :
      (e₀ t : ℕ) (es : List ℕ) (running : ℕ → Option ℕ) (e : ℕ)
      → running e₀ ≡ some t
      → Seat mail es running e
      → Seat mail (es ++ e₀ ∷ []) (clear running e₀) e
  Seat-idle e₀ t es running e polling (ch, found, alive, bound, once) =
      (ch, found, alive, bound, ground (arith, count-append e es (e₀ ∷ [])))

  -- An executor that has finished gets its next message at once.
  pub Seat-again :
      (e₀ t u : ℕ) (es : List ℕ) (running : ℕ → Option ℕ) (e : ℕ)
      → running e₀ ≡ some t
      → Seat mail es running e
      → Seat (post mail e₀ u) es (clear running e₀) e
  Seat-again e₀ t u es running e polling (ch, found, alive, bound, once) =
      elim (Bool-cases (e₀ == e)) [
        | inl same ↦
            let id : e₀ ≡ e = ground arith in
            (
              record ch { queue = ch.queue ++ run_task u ∷ [] },
              rw id (post_self e u ch found),
              alive,
              bound,
              ground (arith, length-append ch.queue (run_task u ∷ [])),
            )
        | inr other ↦ (ch, post_ne e₀ u e (ground arith) ∙ found, alive, bound, ground arith)
      ]

all_tasks-append :
    (q : List ExecutorTask) (t : ℕ) → all_tasks q ≡ true → all_tasks (q ++ run_task t ∷ []) ≡ true
all_tasks-append [] t only_tasks = refl
all_tasks-append (run_task u ∷ q) t only_tasks = all_tasks-append q t only_tasks
all_tasks-append (finished ∷ q) t only_tasks = only_tasks

pub AllTasks-insert :
    (mail : ℕ → Option (Mpsc ExecutorTask)) (id : ℕ) (c : Mpsc ExecutorTask)
    → all_tasks c.queue ≡ true
    → AllTasks mail
    → AllTasks (insert mail id c)
AllTasks-insert mail id c only_tasks v e ch found = elim (Bool-cases (e == id)) [
  | inl same ↦
      let one : some c ≡ some ch = ground arith in
      let at_id : c ≡ ch = cc in rw (← at_id) only_tasks
  | inr other ↦ v e ch (ground arith)
]

pub AllTasks-post :
    (mail : ℕ → Option (Mpsc ExecutorTask)) (id t : ℕ) → AllTasks mail → AllTasks (post mail id t)
AllTasks-post mail id t v = elim (Option-cases (mail id)) [
  | inl missing ↦ rw (missing, post) v
  | inr (ch, found) ↦
      rw (found, post)
        (AllTasks-insert mail id (record ch { queue = ch.queue ++ run_task t ∷ [] })
          (all_tasks-append ch.queue t (v id ch found)) v)
]
