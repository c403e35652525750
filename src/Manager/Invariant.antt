-- ===== src/Manager/Invariant.antt =====
-- The invariant of `Manager.System`: every executor in one place, and no executor idle while a task
-- waits. It rules out that a call of the manager waits, faults, or panics but for a full queue.
use min_async_runtime.Base.{
  ℕ, ◌<◌, ◌≡◌, sym, ap, ◌∙◌, inl, inr, Bool, false, List, [], ◌∷◌, none, some, length, ltb, ◌==◌,
  count, refl, ltb→lt, Bool-cases, returned, panicked, Exit, List-cases, arith,
}
use min_async_runtime.Mpsc.{Mpsc}
use min_async_runtime.Manager.{
  Manager, ExecutorTask, run_task, insert, executor_ready, register_or_execute_non_blocking_task,
}
use min_async_runtime.Manager.Board.{Board, first_live, after_ready, after_submit}
use min_async_runtime.Manager.Refine.{register_or_execute_full}
use min_async_runtime.Manager.System.{
  System, Step, submit, refuse, receive, finish, ends, end_of, busy, hang_up, clear, Reach, here,
  next, Inv, all_tasks,
}
use min_async_runtime.Manager.Seats.{Seat-receive, AllTasks-insert}
use min_async_runtime.Manager.Moves.{
  message_live, polling_live, polling_below, submit_total, finish_total, with_manager, submit-Inv,
  finished_by, settle-Inv, first_live_nil,
}

pub returned-injective :
    {m m' : Manager} → ◌≡◌ {A = Exit Manager (Unit {0})} (returned tt m) (returned tt m') → m ≡ m'
returned-injective e = cc

panicked-injective :
    {m m' : Manager} → ◌≡◌ {A = Exit Manager (Unit {0})} (panicked m) (panicked m') → m ≡ m'
panicked-injective e = cc

module _ {n cap : ℕ} {s : System} {b : Board} (small : n < cap) (v : Inv n cap s b) where
  room :
      (aborted : ℕ → Bool) (t : ℕ) (m : Manager)
      → register_or_execute_non_blocking_task aborted t s.manager ≡ returned tt m
      → aborted t ≡ false
      → b.idle ≡ []
      → length b.tasks < cap
  room aborted t m e live idle = elim (Bool-cases (ltb (length b.tasks) cap)) [
    | inl fits ↦ ltb→lt (length b.tasks) cap fits
    | inr full ↦
        let end =
          register_or_execute_full aborted s.manager cap b v.shown t live idle (ground arith) in
        cc
  ]

  -- A task that was handed over found an idle executor or a place in the queue, or was aborted.
  pub submit_step :
      (aborted : ℕ → Bool) (t : ℕ) (m : Manager)
      → register_or_execute_non_blocking_task aborted t s.manager ≡ returned tt m
      → Inv n cap (with_manager s m) (after_submit aborted t b)
  submit_step aborted t m e =
      let (m', e', shown) =
        submit_total small v aborted t (λ live idle. room aborted t m e live idle) in
      submit-Inv n cap s b aborted t m small v (rw (returned-injective (sym e ∙ e')) shown)

  pub refuse_step :
      (aborted : ℕ → Bool) (t : ℕ) (m : Manager)
      → register_or_execute_non_blocking_task aborted t s.manager ≡ panicked m
      → Inv n cap (with_manager s m) b
  refuse_step aborted t m e = elim (Bool-cases (ltb (length b.tasks) cap)) [
    | inl fits ↦
        let (m', e', shown) =
          submit_total small v aborted t (λ live idle. ltb→lt (length b.tasks) cap fits) in
        cc
    | inr full ↦ elim (Bool-cases (aborted t)) [
      | inl dead ↦ let (m', e', shown) = submit_total small v aborted t (λ live idle. cc) in cc
      | inr live ↦ elim (List-cases b.idle) [
        | inl idle ↦
            let same =
              register_or_execute_full aborted s.manager cap b v.shown t live idle (ground arith) in
            let unchanged : s.manager ≡ m = panicked-injective (sym same ∙ e) in rw (← unchanged) v
        | inr (x, xs, some_idle) ↦
            let (m', e', shown) = submit_total small v aborted t (λ live' idle. cc) in cc
      ]
    ]
  ]

  pub finish_step :
      (aborted : ℕ → Bool) (e t : ℕ) (m : Manager)
      → s.running e ≡ some t
      → executor_ready aborted e s.manager ≡ returned tt m
      → Inv n cap (finished_by s e m) (after_ready aborted e b)
  finish_step aborted e t m polling h =
      let (m', h', shown) = finish_total small v aborted e t polling in
      settle-Inv n cap s b e t (first_live aborted b.tasks) m small v polling
        (first_live_nil aborted b.tasks) (rw (returned-injective (sym h ∙ h')) shown)

  pub receive_step :
      (e₀ t : ℕ) (ch₀ : Mpsc ExecutorTask) (q : List ExecutorTask)
      → s.running e₀ ≡ none
      → s.manager.executors e₀ ≡ some ch₀
      → ch₀.queue ≡ run_task t ∷ q
      → Inv n cap
          (record {
            manager = record s.manager {
              executors = insert s.manager.executors e₀ (record ch₀ { queue = q });
            };
            running = insert s.running e₀ t;
            ended = s.ended;
          })
          (record b { mail = insert b.mail e₀ (record ch₀ { queue = q }) })
  receive_step e₀ t ch₀ q free found head =
      let found' : b.mail e₀ ≡ some ch₀ = rw v.shown.mailed at found in
      record {
        shown = record {
          tasks_held = v.shown.tasks_held;
          idle_held = v.shown.idle_held;
          mailed = rw v.shown.mailed;
        };
        seated = λ e below alive.
            Seat-receive b.mail e₀ t ch₀ q b.idle s.running e free found' head
              (v.seated e below alive);
        gone = λ e over.
            let (none_idle, still, closed) = v.gone e over in
            let receiver_lives = message_live small v e₀ ch₀ (run_task t) q found' head in
            (none_idle, ground arith, λ ch there. closed ch (ground arith));
        others = λ e above. let old = v.others e above in (old.0, ground arith, ground arith);
        no_waste = v.no_waste;
        no_stop =
            AllTasks-insert b.mail e₀ (record ch₀ { queue = q })
              (ap all_tasks (sym head) ∙ v.no_stop e₀ ch₀ found') v.no_stop;
      }

  -- The thread of an executor that has a task ends.
  pub ends_step :
      (e₀ t : ℕ) (ch₀ : Mpsc ExecutorTask)
      → s.running e₀ ≡ some t
      → s.manager.executors e₀ ≡ some ch₀
      → Inv n cap
          (record {
            manager = record s.manager { executors = insert s.manager.executors e₀ (hang_up ch₀) };
            running = clear s.running e₀;
            ended = end_of s.ended e₀;
          })
          (record b { mail = insert b.mail e₀ (hang_up ch₀) })
  ends_step e₀ t ch₀ polling found =
      let found' : b.mail e₀ ≡ some ch₀ = rw v.shown.mailed at found in
      let below₀ : e₀ < n = polling_below small v e₀ t polling in
      let (_, _, _, _, once) = v.seated e₀ below₀ (polling_live small v e₀ t polling) in
      record {
        shown = record {
          tasks_held = v.shown.tasks_held;
          idle_held = v.shown.idle_held;
          mailed = rw v.shown.mailed;
        };
        seated = λ e below alive.
            let (ch, there, receiver, bound, one) = v.seated e below (ground arith) in
            (ch, ground arith, receiver, bound, ground arith);
        gone = λ e over. elim (Bool-cases (e == e₀)) [
          | inl same ↦
              let who : e ≡ e₀ = ground arith in
              (
                omega (arith, ap (λ k. count k b.idle) who, once, ap busy polling),
                rw same refl,
                λ ch there.
                    let it : some (hang_up ch₀) ≡ some ch = rw same at there in
                    let eq : hang_up ch₀ ≡ ch = cc in (rw (← eq) refl, rw (← eq) refl),
              )
          | inr other ↦
              let (none_idle, free, closed) = v.gone e (ground arith) in
              (none_idle, ground arith, λ ch there. closed ch (ground arith))
        ];
        others = λ e above. let old = v.others e above in (old.0, ground arith, ground arith);
        no_waste = v.no_waste;
        no_stop = AllTasks-insert b.mail e₀ (hang_up ch₀) refl v.no_stop;
      }

-- Every step of the system keeps the invariant.
pub Step-Inv :
    {n cap : ℕ} {s t : System} {b : Board}
    → n < cap
    → Step s t
    → Inv n cap s b
    → (b' : Board) × Inv n cap t b'
Step-Inv small (submit aborted t m e) v = (_, submit_step small v aborted t m e)
Step-Inv small (refuse aborted t m e) v = (_, refuse_step small v aborted t m e)
Step-Inv small (receive e t ch q free found head) v =
    (_, receive_step small v e t ch q free found head)
Step-Inv small (ends e t ch polling found) v = (_, ends_step small v e t ch polling found)
Step-Inv small (finish aborted e t m polling h) v = (_, finish_step small v aborted e t m polling h)

pub Reach-Inv :
    {n cap : ℕ} {s t : System} {b : Board}
    → n < cap
    → Reach s t
    → Inv n cap s b
    → (b' : Board) × Inv n cap t b'
Reach-Inv {b} small here v = (b, v)
Reach-Inv small (next r step) v = Step-Inv small step (Reach-Inv small r v).1
