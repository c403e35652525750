-- ===== src/Manager/Work.antt =====
-- How much the executors of `Manager.System` have left to do: the loop of src/executor.rs with
-- `executor_ready` of src/task/manager.rs.
use min_async_runtime.Base.{
  ℕ, ◌+◌, ◌*◌, ◌≤◌, ◌<◌, ◌≡◌, Bool, true, false, List, Option, none, some, arith,
}
use min_async_runtime.Mpsc.{Mpsc}
use min_async_runtime.Manager.{ExecutorTask}
use min_async_runtime.Manager.Board.{Board, first_live, settle}
use min_async_runtime.Manager.System.{
  System, Step, submit, refuse, receive, finish, ends, Reach, here, next, Inv,
}
use min_async_runtime.Manager.Moves.{polling_live, channel_below, polling_below, can_receive}
use min_async_runtime.Manager.Invariant.{receive_step, finish_step}
use min_async_runtime.Manager.Accounts.{
  each, tally, mailed, polling, mailed-insert, mailed-post, polling-insert, polling-clear,
  found_and_left, tally-first_live,
}

-- A step of an executor that goes on, and not of a thread that spawns or wakes.
abbrev pub is_service : {s u : System} → Step s u → Bool
is_service (submit aborted v m h) = false
is_service (refuse aborted v m h) = false
is_service (receive e v ch q free found head) = true
is_service (finish aborted e v m held h) = true
is_service (ends e v ch held found) = false

abbrev pub Service : {s u : System} → Reach s u → Type 0
Service here = Unit
Service (next r step) = Service r × (is_service step ≡ true)

abbrev pub steps : {s u : System} → Reach s u → ℕ
steps here = 0
steps (next r step) = steps r + 1

-- The steps that are left: at most three for a task in the queue, two for one in a mailbox, one for
-- one that is being polled.
abbrev pub work_left : ℕ → System → Board → ℕ
work_left n s b = 3 * tally each b.tasks + 2 * mailed n each b.mail + polling n each s.running

settle-work :
    (n e : ℕ) (next : Option (ℕ × List ℕ)) (b : Board) (ch : Mpsc ExecutorTask) (ts : List ℕ)
    → e < n
    → b.mail e ≡ some ch
    → found_and_left each next ≤ tally each ts
    → 3 * tally each (settle e next b.idle b.mail).tasks
        + 2 * mailed n each (settle e next b.idle b.mail).mail
      ≤ 3 * tally each ts + 2 * mailed n each b.mail
settle-work n e none b ch ts below found less = omega arith
settle-work n e (some (u, rest)) b ch ts below found less =
    omega (arith, mailed-post n each e u b.mail ch below found)

-- Each step of an executor leaves less to do.
pub Step-work :
    {n cap : ℕ} {s u : System} {b : Board} (step : Step s u)
    → n < cap
    → Inv n cap s b
    → is_service step ≡ true
    → (b' : Board) × Inv n cap u b' × (work_left n u b' < work_left n s b)
Step-work (submit aborted v m h) small inv service = absurd (cc)
Step-work (refuse aborted v m h) small inv service = absurd (cc)
Step-work {n} {s} {b} (receive e v ch q free found head) small inv service =
    let found' : b.mail e ≡ some ch = rw inv.shown.mailed at found in
    let below : e < n = channel_below small inv e ch found' in
    (
      _,
      receive_step small inv e v ch q free found head,
      omega (
        arith,
        mailed-insert n each e v b.mail ch q below found' head,
        polling-insert n each e v s.running below free,
      ),
    )
Step-work (ends e v ch held found) small inv service = absurd (cc)
Step-work {n} {s} {b} (finish aborted e v m polls h) small inv service =
    let below : e < n = polling_below small inv e v polls in
    let (ch, found, _, _) = can_receive small inv e below (polling_live small inv e v polls) in
    (
      _,
      finish_step small inv aborted e v m polls h,
      omega (
        arith,
        settle-work n e (first_live aborted b.tasks) b ch b.tasks below found
            (omega (arith, tally-first_live aborted each b.tasks)),
        polling-clear n each e v s.running below polls,
      ),
    )

pub Reach-work :
    {n cap : ℕ} {s u : System} {b : Board} (r : Reach s u)
    → n < cap
    → Inv n cap s b
    → Service r
    → (b' : Board) × Inv n cap u b' × (work_left n u b' + steps r ≤ work_left n s b)
Reach-work {b} here small inv service = (b, inv, omega arith)
Reach-work (next r step) small inv service =
    let (b₁, inv₁, less₁) = Reach-work r small inv service.0 in
    let (b₂, inv₂, less₂) = Step-work step small inv₁ service.1 in
    (b₂, inv₂, omega (arith, less₁, less₂))
