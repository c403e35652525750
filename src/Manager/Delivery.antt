-- ===== src/Manager/Delivery.antt =====
-- What becomes of the tasks that were handed over in `Manager.System`.
use min_async_runtime.Base.{
  false, ℕ, ◌+◌, ◌<◌, ◌≡◌, refl, sym, ap, ◌∙◌, inl, inr, returned, total_zero, [], Option, none,
  some, count, length, arith,
}
use min_async_runtime.Mpsc.{Mpsc}
use min_async_runtime.Manager.{Manager, create, max_waiting, ExecutorTask}
use min_async_runtime.Manager.Board.{Board}
use min_async_runtime.Manager.System.{System, Reach, Inv, Seat, boot, busy}
use min_async_runtime.Manager.Invariant.{returned-injective}
use min_async_runtime.Manager.Boot.{idle_system, boot_lem}
use min_async_runtime.Manager.Once.{under_way, Reach-Account}
use min_async_runtime.Manager.Accounts.{
  messages_zero, only, only-Counts, tally, messages, in_mailbox, on_executor, accepted, completed,
  NeverAborted,
}

-- When every executor is idle, nothing is under way.
under_way_zero :
    (n cap : ℕ) (w : ℕ → ℕ) (s : System) (b : Board)
    → Inv n cap s b
    → b.tasks ≡ []
    → ((e : ℕ) → e < n → (in_mailbox w (b.mail e) ≡ 0) × (on_executor w (s.running e) ≡ 0))
    → under_way n w s b ≡ 0
under_way_zero n cap w s b v empty quiet = omega (
  arith,
  ap (tally w) empty,
  total_zero n (λ e. in_mailbox w (b.mail e)) (λ e below. (quiet e below).0),
  total_zero n (λ e. on_executor w (s.running e)) (λ e below. (quiet e below).1),
)

on_executor_zero : (w : ℕ → ℕ) (o : Option ℕ) → busy o ≡ 0 → on_executor w o ≡ 0
on_executor_zero w none e = refl
on_executor_zero w (some u) e = absurd (omega arith)

mailbox_zero :
    (w : ℕ → ℕ) (o : Option (Mpsc ExecutorTask))
    → ((ch : Mpsc ExecutorTask) → o ≡ some ch → ch.queue ≡ [])
    → in_mailbox w o ≡ 0
mailbox_zero w none empty = refl
mailbox_zero w (some ch) empty = ap (messages w) (empty ch refl)

-- An idle executor's mailbox is empty and it polls nothing.
Seat-quiet :
    (w : ℕ → ℕ) (e : ℕ) (s : System) (b : Board)
    → Seat b.mail b.idle s.running e
    → count e b.idle ≡ 1
    → (in_mailbox w (b.mail e) ≡ 0) × (on_executor w (s.running e) ≡ 0)
Seat-quiet w e s b (ch, found, alive, bound, once) idle = (
  ap (in_mailbox w) found ∙ messages_zero w ch.queue (omega arith),
  on_executor_zero w (s.running e) (omega arith),
)

-- After the registration loop nothing is under way yet.
pub boot-under_way :
    (n : ℕ)
    → n < max_waiting
    → (m : Manager) × (boot n 0 create ≡ returned tt m)
      × (b : Board) × Inv n max_waiting (idle_system m) b
      × ((w : ℕ → ℕ) → under_way n w (idle_system m) b ≡ 0)
boot-under_way n small =
    let (m, p, b, v, (empty, idle)) = boot_lem n small in
    (
      m,
      p,
      b,
      v,
      λ w.
          under_way_zero n max_waiting w (idle_system m) b v empty
            (λ e below. Seat-quiet w e (idle_system m) b (v.seated e below refl) (idle e below)),
    )

-- After the registration loop of `build`, for fewer than `max_waiting` workers, in any run of
-- spawns, wakes, aborts, receptions, polls and ends of executors' threads in which no two calls of
-- the manager overlap: each time that a task was
-- accepted, by a spawn or a wake that returned when the task was not aborted, it is either in the
-- queue of tasks, in an executor's mailbox, being polled, or has been polled, or it was dropped, by
-- an executor that found it aborted or whose thread ended with it; nothing is dropped if no executor
-- saw the task's abort flag set and no thread ended with it. So no acceptance is lost, and none
-- leads to two polls.
pub boot-Account :
    (n t : ℕ) (m : Manager) (s : System) (r : Reach (idle_system m) s)
    → n < max_waiting
    → boot n 0 create ≡ returned tt m
    → (b : Board) × Inv n max_waiting s b
      × (dropped : ℕ) × (NeverAborted t r → dropped ≡ 0)
      × (under_way n (only t) s b + completed r (only t) + dropped ≡ accepted r (only t))
boot-Account n t m s r small booted =
    let (m₁, p, b, v₁, nothing) = boot-under_way n small in
    let same : m₁ ≡ m = returned-injective (sym p ∙ booted) in
    let v : Inv n max_waiting (idle_system m) b = rw same at v₁ in
    let (b', v', dropped, kept, sum) = Reach-Account (only t) r small v in
    (b', v', dropped, kept t (only-Counts t), omega (arith, nothing (only t), sum))

-- Executor `e` polls nothing, and its mailbox is empty.
abbrev pub Quiet : System → ℕ → Type 0
Quiet s e =
    (s.running e ≡ none)
    × ((ch : Mpsc ExecutorTask) → s.manager.executors e ≡ some ch → ch.queue ≡ [])

abbrev pub AtRest : ℕ → System → Type 0
AtRest n s = (e : ℕ) → e < n → Quiet s e

Seat-rest :
    (s : System) (b : Board) (e : ℕ)
    → Seat b.mail b.idle s.running e
    → s.running e ≡ none
    → ((ch : Mpsc ExecutorTask) → b.mail e ≡ some ch → ch.queue ≡ [])
    → count e b.idle ≡ 1
Seat-rest s b e (ch, found, alive, bound, once) free empty =
    omega (arith, ap busy free, ap length (empty ch found), once)

-- Then, if an executor is left, no task waits either, and nothing is under way.
pub at_rest_lem :
    {n cap : ℕ} {s : System} {b : Board} (w : ℕ → ℕ) (left : ℕ)
    → left < n
    → s.ended left ≡ false
    → Inv n cap s b
    → AtRest n s
    → under_way n w s b ≡ 0
at_rest_lem {n} {cap} {s} {b} w left some_executor alive v rest =
    let emptied : (e : ℕ) (ch : Mpsc ExecutorTask) → e < n → b.mail e ≡ some ch → ch.queue ≡ [] =
      λ e ch below found. (rest e below).1 ch (rw (← v.shown.mailed) at found) in
    let idle_left : count left b.idle ≡ 1 =
      Seat-rest s b left (v.seated left some_executor alive) (rest left some_executor).0
        (λ ch found. emptied left ch some_executor found) in
    let empty : b.tasks ≡ [] = elim v.no_waste [
      | inl idle ↦ absurd (omega (arith, ap (count left) idle, idle_left))
      | inr tasks ↦ tasks
    ] in
    under_way_zero n cap w s b v empty (λ e below. (
      mailbox_zero w (b.mail e) (λ ch found. emptied e ch below found),
      ap (on_executor w) (rest e below).0,
    ))
