-- ===== src/Manager/Tests.antt =====
-- src/task/manager.rs at a small manager: two executors, of which the second is idle.
use min_async_runtime.Base.{
  ℕ, ◌≡◌, ◌+◌, ◌≤◌, ap, ◌∙◌, length, refl, Bool, List, [], ◌∷◌, Option, none, some, ◌==◌,
  if◌then◌else◌, returned, arith,
}
use min_async_runtime.Mpsc.{Mpsc, sync_channel}
use min_async_runtime.Ring
use min_async_runtime.Ring.{Ring}
use min_async_runtime.Manager.{
  Manager, ExecutorTask, create, max_waiting, executor_ready, register_or_execute_non_blocking_task,
}
use min_async_runtime.Manager.Board.{
  Board, Shows, CanReceive, after_ready, after_submit, first_live,
}
use min_async_runtime.Manager.Refine.{board, executor_ready_lem, register_or_execute_lem}
use min_async_runtime.Manager.System.{System, Reach, here, next, submit, Inv, boot}
use min_async_runtime.Manager.Accounts.{only, accepted, completed, NeverAborted}
use min_async_runtime.Manager.Once.{under_way}
use min_async_runtime.Manager.Work.{Service, steps, work_left}
use min_async_runtime.Manager.Delivery.{AtRest, boot-Account}
use min_async_runtime.Manager.Drain.{executors_rest, accepted-completed}
use min_async_runtime.Manager.Boot.{boot_lem, idle_system, boot-Reach-Inv, reachable_calls_return}

abbrev inbox : Mpsc ExecutorTask
inbox = sync_channel 10_000

abbrev mail : ℕ → Option (Mpsc ExecutorTask)
mail e = if e == 0 then some inbox else if e == 1 then some inbox else none

-- Tasks 5 and 6 wait, and nobody is idle.
abbrev busy_manager : Manager
busy_manager = record {
  waiting_tasks = record { buffer = some 5 ∷ some 6 ∷ []; start = 0; end = 0; count = 2 };
  waiting_executors = record { buffer = none ∷ none ∷ []; start = 0; end = 0; count = 0 };
  executors = mail;
}

abbrev busy_board : Board
busy_board = record { tasks = 5 ∷ 6 ∷ []; idle = []; mail = mail }

busy-Shows : Shows busy_manager 2 busy_board
busy-Shows = record {
  tasks_held = record {
    sized = refl;
    small = omega arith;
    start_in = omega arith;
    fits = omega arith;
    counted = refl;
    ends = refl;
    held = refl;
  };
  idle_held = record {
    sized = refl;
    small = omega arith;
    start_in = omega arith;
    fits = omega arith;
    counted = refl;
    ends = refl;
    held = refl;
  };
  mailed = refl;
}

-- Task 5 has been aborted.
abbrev aborted_5 : ℕ → Bool
aborted_5 t = t == 5

executor_ready_lem_example :
    (m' : Manager) × (executor_ready aborted_5 0 busy_manager ≡ returned tt m')
    × Shows m' 2 (after_ready aborted_5 0 busy_board)
executor_ready_lem_example =
    executor_ready_lem aborted_5 busy_manager 2 busy_board busy-Shows 0 (omega arith)
      (inbox, refl, refl, omega arith)

-- The first live task is 6, and none is left.
after_ready_test : (after_ready aborted_5 0 busy_board).tasks ≡ []
unfolding first_live
after_ready_test = refl

-- Executors 1 and 0 are idle, and no task waits.
abbrev idle_manager : Manager
idle_manager = record {
  waiting_tasks = record { buffer = none ∷ none ∷ []; start = 0; end = 0; count = 0 };
  waiting_executors = record { buffer = some 1 ∷ some 0 ∷ []; start = 0; end = 0; count = 2 };
  executors = mail;
}

idle-Shows : Shows idle_manager 2 (board [] (1 ∷ 0 ∷ []) mail)
idle-Shows = record {
  tasks_held = record {
    sized = refl;
    small = omega arith;
    start_in = omega arith;
    fits = omega arith;
    counted = refl;
    ends = refl;
    held = refl;
  };
  idle_held = record {
    sized = refl;
    small = omega arith;
    start_in = omega arith;
    fits = omega arith;
    counted = refl;
    ends = refl;
    held = refl;
  };
  mailed = refl;
}

first_idle : (e : ℕ) (es : List ℕ) → 1 ∷ 0 ∷ [] ≡ e ∷ es → CanReceive mail e
first_idle e es first = let who : 1 ≡ e = cc in rw (← who) (inbox, refl, refl, omega arith)

-- Task 6 is live: it goes to executor 1.
register_or_execute_lem_example :
    (m' : Manager) × (register_or_execute_non_blocking_task aborted_5 6 idle_manager
      ≡ returned tt m')
    × Shows m' 2 (after_submit aborted_5 6 (board [] (1 ∷ 0 ∷ []) mail))
register_or_execute_lem_example =
    register_or_execute_lem aborted_5 idle_manager 2 (board [] (1 ∷ 0 ∷ []) mail) idle-Shows 6
      (λ live nobody. omega arith) first_idle

boot-Reach-Inv_example :
    (m : Manager) × (boot 4 0 create ≡ returned tt m)
    × ((t : System) → Reach (idle_system m) t → (b : Board) × Inv 4 max_waiting t b)
boot-Reach-Inv_example = boot-Reach-Inv 4 (omega arith)

-- The manager after the registration of four executors.
booted : Manager
booted = (boot_lem 4 (omega arith)).0

booted_eq : boot 4 0 create ≡ returned tt booted
unfolding booted
booted_eq = (boot_lem 4 (omega arith)).1

none_waits : Ring.len booted.waiting_tasks ≡ 0
unfolding booted
none_waits =
    let (m, p, b, v, (empty, idle)) = boot_lem 4 (omega arith) in
    v.shown.tasks_held.counted ∙ ap (length {A = ℕ}) empty

-- A run in which task 6 is handed over to the four idle executors.
submitted :
    (m : Manager) × (register_or_execute_non_blocking_task aborted_5 6 booted ≡ returned tt m)
submitted =
    (reachable_calls_return 4 booted (idle_system booted) aborted_5 (omega arith) booted_eq here).1
      6 (λ live idle. omega (arith, none_waits))

abbrev after_6 : System
after_6 = record (idle_system booted) { manager = submitted.0 }

run_6 : Reach (idle_system booted) after_6
run_6 = next here (submit aborted_5 6 submitted.0 submitted.1)

boot-Account_example :
    (b : Board) × Inv 4 max_waiting after_6 b
    × (dropped : ℕ) × (NeverAborted 6 run_6 → dropped ≡ 0)
    × (under_way 4 (only 6) after_6 b + completed run_6 (only 6) + dropped
        ≡ accepted run_6 (only 6))
boot-Account_example = boot-Account 4 6 booted after_6 run_6 (omega arith) booted_eq

-- Task 6 was accepted once.
accepted_test : accepted run_6 (only 6) ≡ 1
unfolding run_6
accepted_test = refl

executors_rest_example :
    (b : Board) × Shows after_6.manager max_waiting b
    × ((u : System) (q : Reach after_6 u) → Service q → steps q ≤ work_left 4 after_6 b)
    × (u : System) × (q : Reach after_6 u) × Service q
    × AtRest 4 u
executors_rest_example = executors_rest 4 booted after_6 (omega arith) booted_eq run_6

run_6-NeverAborted : NeverAborted 6 run_6
unfolding run_6
run_6-NeverAborted = (tt, tt)

accepted-completed_example :
    ((u : System) (q : Reach after_6 u)
      → Service q
      → AtRest 4 u
      → NeverAborted 6 q
      → completed run_6 (only 6) + completed q (only 6) ≡ accepted run_6 (only 6))
    × (u : System) × (q : Reach after_6 u) × Service q
    × AtRest 4 u
    × NeverAborted 6 q
accepted-completed_example =
    accepted-completed 4 6 3 booted after_6 run_6 (omega arith) refl (omega arith) booted_eq
      run_6-NeverAborted
