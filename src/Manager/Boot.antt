-- ===== src/Manager/Boot.antt =====
-- The executors that `RuntimeBuilder::build` (src/runtime.rs) registers, and what holds from then
-- on.
use min_async_runtime.Base.{
  ℕ, zero, suc, ◌+◌, ◌≤◌, ◌<◌, ◌≡◌, ◌≢◌, refl, sym, ap, ◌∙◌, inl, inr, Bool, false, List, [], ◌∷◌,
  ◌++◌, Option, none, some, length, count, count-append, ◌==◌, Bool-cases, returned, arith, subst,
}
use min_async_runtime.Base.Monad.{effects}
use min_async_runtime.Mpsc.{Mpsc, sync_channel}
use min_async_runtime.Ring
use min_async_runtime.Ring.Refine.{new-Holds}
use min_async_runtime.Manager.{
  Manager, ExecutorTask, insert, create, max_waiting, register_executor, executor_ready,
  register_or_execute_non_blocking_task,
}
use min_async_runtime.Manager.Board.{Board, Shows}
use min_async_runtime.Manager.Refine.{push_executor_lem, board}
use min_async_runtime.Manager.System.{System, Reach, Inv, Seat, boot, max_queued_tasks}
use min_async_runtime.Manager.Seats.{AllTasks-insert}
use min_async_runtime.Manager.Moves.{idle_room, with_manager, submit_total, finish_total}
use min_async_runtime.Manager.Invariant.{returned-injective, Reach-Inv}

abbrev channel : Mpsc ExecutorTask
channel = sync_channel max_queued_tasks

Seat-register :
    (mail : ℕ → Option (Mpsc ExecutorTask)) (idle : List ℕ) (running : ℕ → Option ℕ) (i e : ℕ)
    → count i idle ≡ 0
    → running i ≡ none
    → (e ≢ i → Seat mail idle running e)
    → Seat (insert mail i channel) (idle ++ i ∷ []) running e
Seat-register mail idle running i e new free old = elim (Bool-cases (e == i)) [
  | inl same ↦
      let one = count-append e idle (i ∷ []) in (channel, ground arith, refl, refl, ground arith)
  | inr other ↦
      let (ch, found, alive, bound, once) = old (ground arith) in
      (ch, ground arith, alive, bound, ground (arith, count-append e idle (i ∷ [])))
]

register-Inv :
    {i cap : ℕ} {s : System} {b : Board}
    → i < cap
    → Inv i cap s b
    → b.tasks ≡ []
    → ((e : ℕ) → s.ended e ≡ false)
    → (m : Manager) × (register_executor i channel s.manager ≡ returned tt m)
      × Inv (i + 1) cap (with_manager s m) (board [] (b.idle ++ i ∷ []) (insert b.mail i channel))
unfolding register_executor
register-Inv {i} {cap} {s} {b} small v empty fresh =
    let before : Shows (record s.manager { executors = insert s.manager.executors i channel }) cap
        (board [] b.idle (insert b.mail i channel)) =
      record {
        tasks_held = rw (← empty) v.shown.tasks_held;
        idle_held = v.shown.idle_held;
        mailed = rw v.shown.mailed;
      } in
    let (m, p, shown) = push_executor_lem i before (idle_room small v) in
    (
      m,
      p,
      record {
        shown = shown;
        seated = λ e below alive.
            Seat-register b.mail b.idle s.running i e (v.others i (omega arith)).0
              (v.others i (omega arith)).1 (λ ne. v.seated e (omega arith) alive);
        gone = λ e over. absurd (cc (over, fresh e));
        others = λ e above.
            let old = v.others e (omega arith) in
            (ground (arith, count-append e b.idle (i ∷ [])), old.1, ground arith);
        no_waste = inr refl;
        no_stop = AllTasks-insert b.mail i channel refl v.no_stop;
      },
    )

-- No task waits and each of the first `n` executors is idle.
abbrev pub AllIdle : ℕ → Board → Type 0
AllIdle n b = (b.tasks ≡ []) × ((e : ℕ) → e < n → count e b.idle ≡ 1)

AllIdle-register :
    (i : ℕ) (b : Board) (mail : ℕ → Option (Mpsc ExecutorTask))
    → AllIdle i b
    → count i b.idle ≡ 0
    → ((e : ℕ) → i ≤ e → count e b.idle ≡ 0)
    → AllIdle (i + 1) (board [] (b.idle ++ i ∷ []) mail)
AllIdle-register i b mail (empty, once) new above = (
  refl,
  λ e below. elim (Bool-cases (e == i)) [
    | inl same ↦ ground (arith, count-append e b.idle (i ∷ []), above e)
    | inr other ↦ ground (arith, count-append e b.idle (i ∷ []), once e)
  ],
)

boot-Inv :
    (k i cap : ℕ) (s : System) (b : Board)
    → i + k ≤ cap
    → Inv i cap s b
    → AllIdle i b
    → ((e : ℕ) → s.ended e ≡ false)
    → (m : Manager) × (boot k i s.manager ≡ returned tt m)
      × (b' : Board) × Inv (i + k) cap (with_manager s m) b'
      × AllIdle (i + k) b'
unfolding boot
boot-Inv zero i cap s b fits v quiet fresh = (
  s.manager,
  refl,
  b,
  subst (λ n. Inv n cap s b) (omega arith) v,
  subst (λ n. AllIdle n b) (omega arith) quiet,
)
boot-Inv (suc k) i cap s b fits v quiet fresh =
    let (m₁, p, v₁) = register-Inv (omega arith) v quiet.0 fresh in
    let quiet₁ =
      AllIdle-register i b (insert b.mail i channel) quiet (v.others i (omega arith)).0
        (λ e above. (v.others e above).0) in
    let (m, q, b', v', quiet') =
      boot-Inv k (i + 1) cap (with_manager s m₁) _ (omega arith) v₁ quiet₁ fresh in
    (
      m,
      rw (p, effects) q,
      b',
      subst (λ n. Inv n cap (with_manager s m) b') (omega arith) v',
      subst (λ n. AllIdle n b') (omega arith) quiet',
    )

abbrev pub idle_system : Manager → System
idle_system m = record { manager = m; running = λ _. none; ended = λ _. false }

create-Inv : Inv 0 max_waiting (idle_system create) (board [] [] (λ _. none))
unfolding create
create-Inv = record {
  shown = record {
    tasks_held = new-Holds max_waiting (omega arith);
    idle_held = new-Holds max_waiting (omega arith);
    mailed = refl;
  };
  seated = λ e below alive. elim below [ ];
  gone = λ e over. absurd (cc (over));
  others = λ e above. (refl, refl, refl);
  no_waste = inl refl;
  no_stop = λ e ch found. absurd (ground arith);
}

pub boot_lem :
    (n : ℕ)
    → n < max_waiting
    → (m : Manager) × (boot n 0 create ≡ returned tt m)
      × (b : Board) × Inv n max_waiting (idle_system m) b
      × AllIdle n b
boot_lem n small =
    let (m, p, b, v, quiet) =
      boot-Inv n 0 max_waiting (idle_system create) _ (omega arith) create-Inv
        (refl, λ e below. absurd (omega arith)) (λ e. refl) in
    (
      m,
      p,
      b,
      subst (λ k. Inv k max_waiting (idle_system m) b) (omega arith) v,
      subst (λ k. AllIdle k b) (omega arith) quiet,
    )

-- With fewer than `max_waiting` workers, the registration loop returns, and whatever spawns, wakes,
-- aborts, receptions, polls and ends of executors' threads follow, as long as no two calls of the
-- manager overlap: each worker whose thread has not ended has a live channel of its own and is in exactly one place, idle, with one message waiting,
-- or polling; one whose thread has ended is not among the idle, so that it is never given a task,
-- and its channel is empty; no worker is idle while a task waits; no message tells a worker to stop;
-- and the two ring buffers are well-formed.
pub boot-Reach-Inv :
    (n : ℕ)
    → n < max_waiting
    → (m : Manager) × (boot n 0 create ≡ returned tt m)
      × ((t : System) → Reach (idle_system m) t → (b : Board) × Inv n max_waiting t b)
boot-Reach-Inv n small =
    let (m, p, b, v, _) = boot_lem n small in (m, p, λ t r. Reach-Inv small r v)

length-nil : (l : List ℕ) → l ≡ [] → length l ≡ 0
length-nil l e = ap length e

-- After the registration loop of `build`, for fewer than `max_waiting` workers, in any reachable
-- system, whatever threads of executors have ended, no call of an executor or a spawning thread
-- waits on a channel or faults: a polling executor's `executor_ready` returns, and handing over a
-- task returns if there is place in the task queue whenever the task is live and no executor idle.
pub reachable_calls_return :
    (n : ℕ) (m : Manager) (s : System) (aborted : ℕ → Bool)
    → n < max_waiting
    → boot n 0 create ≡ returned tt m
    → Reach (idle_system m) s
    → ((e t : ℕ)
        → s.running e ≡ some t
        → (m' : Manager) × (executor_ready aborted e s.manager ≡ returned tt m'))
      × ((t : ℕ)
          → (aborted t ≡ false
              → Ring.len s.manager.waiting_executors ≡ 0
              → Ring.len s.manager.waiting_tasks < max_waiting)
          → (m' : Manager) × (register_or_execute_non_blocking_task aborted t s.manager
              ≡ returned tt m'))
reachable_calls_return n m s aborted small booted r =
    let (m₁, p, all) = boot-Reach-Inv n small in
    let same : m₁ ≡ m = returned-injective (sym p ∙ booted) in
    let (b, v) = all s (rw same r) in
    (
      λ e t polling. let (m', q, _) = finish_total small v aborted e t polling in (m', q),
      λ t room.
          let (m', q, _) = submit_total small v aborted t (λ live idle. omega (
            arith,
            v.shown.tasks_held.counted,
            room live (v.shown.idle_held.counted ∙ length-nil b.idle idle),
          )) in
          (m', q),
    )
