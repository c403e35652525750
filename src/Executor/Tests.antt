-- ===== src/Executor/Tests.antt =====
-- src/executor.rs with futures that count down: 0 is ready, 1 panics, and any other is pending.
use min_async_runtime.Base.{
  ℕ, zero, suc, ◌≡◌, ◌<◌, ◌≤◌, ◌∙◌, ◌⊎◌, inl, Bool, ap, length, refl, true, false, List, [], ◌∷◌,
  Option, none, some, ◌==◌, if◌then◌else◌, returned, arith,
}
use min_async_runtime.Mpsc.{Mpsc, sync_channel}
use min_async_runtime.Ring
use min_async_runtime.Ring.{push, pop}
use min_async_runtime.Manager.{
  Manager, ExecutorTask, run_task, insert, create, max_waiting,
  register_or_execute_non_blocking_task,
}
use min_async_runtime.Manager.Seats.{AllTasks-insert}
use min_async_runtime.Manager.System.{Reach, here, clear}
use min_async_runtime.Executor.{
  Polled, pending, ready, panics, Poll, Task, Host, has_aborted, with_manager, executor_thread,
  wake_all, serve,
}
use min_async_runtime.Executor.Serve.{system}
use min_async_runtime.Executor.Progress.{submit_all, leave_future, serve-returns}
use min_async_runtime.Executor.Thread.{executor_thread-dies}
use min_async_runtime.Ring.Refine.{Holds}
use min_async_runtime.Manager.Refine.{board}
use min_async_runtime.Manager.System.{end_of, Inv, Seat, System, submit, boot}
use min_async_runtime.Manager.Board.{Board, Shows, after_ready}
use min_async_runtime.Manager.Boot.{idle_system, boot_lem, reachable_calls_return}
use min_async_runtime.Manager.Delivery.{AtRest}
use min_async_runtime.Executor.Lock.{
  wants, polls, polled, Locked, hands, takes, locks, LockReach, move_to, unlocked, received_by,
  here as here_lock, next as next_lock,
}
use min_async_runtime.Executor.Exclusion.{polls_once}
use min_async_runtime.Executor.Waker.{
  Refs, Use, polls as polls_task, clones, drops, finishes, wakes, by_ref, kept, use_once, use_all,
  Balanced, upgraded, use_all-Balanced, wake_by_ref-frees,
}
use min_async_runtime.Executor.Unblocked.{Works, lock_steps, lock_work, mutexes_free}

abbrev count_down : ℕ → Polled ℕ
count_down zero = ready
count_down (suc zero) = panics
count_down (suc (suc n)) = pending n

abbrev poll : ℕ → Poll ℕ
poll n = record { wakes = []; polled = count_down n }

-- Task `t` starts at `t`.
abbrev task : ℕ → Task ℕ
task t = record { future = some t; poisoned = false; task_tag = t; abort = false }

abbrev inbox : List ExecutorTask → Option (Mpsc ExecutorTask)
inbox q = some (record { queue = q; bound = 10_000; senders = 1; receiver = true })

abbrev mail : List ExecutorTask → ℕ → Option (Mpsc ExecutorTask)
mail q e = if e == 0 then inbox q else none

abbrev manager : Manager
manager = record {
  waiting_tasks = record { buffer = none ∷ none ∷ []; start = 0; end = 0; count = 0 };
  waiting_executors = record { buffer = none ∷ none ∷ []; start = 0; end = 0; count = 0 };
  executors = mail (run_task 0 ∷ []);
}

abbrev host : Host ℕ
host = record { tasks = task; manager = manager; panic_tx = sync_channel 1 }

-- A panic has been reported and not been read.
abbrev alarmed : Host ℕ
alarmed = record host { panic_tx = record host.panic_tx { queue = tt ∷ [] } }

woken : (h : Host ℕ) → wake_all [] h ≡ returned tt h
unfolding wake_all
woken h = refl

abbrev idle : ℕ → Option ℕ
idle e = none

abbrev all_run : ℕ → Bool
all_run e = false

no_places-Holds : Holds manager.waiting_tasks 2 []
no_places-Holds = record {
  sized = refl;
  small = omega arith;
  start_in = omega arith;
  fits = omega arith;
  counted = refl;
  ends = refl;
  held = refl;
}

first-Seat : (e : ℕ) → e < 1 → Seat (mail (run_task 0 ∷ [])) [] idle e
first-Seat zero below = (
  record { queue = run_task 0 ∷ []; bound = 10_000; senders = 1; receiver = true },
  refl,
  refl,
  refl,
  refl,
)
first-Seat (suc e) below = absurd (omega arith)

host-Inv : Inv 1 2 (system host idle all_run) (board [] [] (mail (run_task 0 ∷ [])))
host-Inv = record {
  shown = record { tasks_held = no_places-Holds; idle_held = no_places-Holds; mailed = refl };
  seated = λ e below alive. first-Seat e below;
  gone = λ e over. absurd (cc (over));
  others = λ e above. (refl, refl, ground arith);
  no_waste = inl refl;
  no_stop =
      AllTasks-insert (λ _. none) 0
        (record { queue = run_task 0 ∷ []; bound = 10_000; senders = 1; receiver = true }) refl
        (λ e ch found. absurd (ground arith));
}

-- A future that wakes task 4 and its own, and is pending.
abbrev waking : ℕ → Poll ℕ
waking n = record { wakes = 4 ∷ 0 ∷ []; polled = pending 7 }

serve-returns_example :
    (m : Manager) × (h' : Host ℕ) × (serve waking 0 host ≡ returned true h')
    × (h' ≡ with_manager m (leave_future 0 (some 7) host))
    × Shows m 2 (
        after_ready (has_aborted h') 0 (
          submit_all (has_aborted host) (4 ∷ 0 ∷ []) (
            board [] [] (
              insert
                (mail (run_task 0 ∷ []))
                0
                (record { queue = []; bound = 10_000; senders = 1; receiver = true })))))
serve-returns_example =
    serve-returns 1 2 (omega arith) idle all_run waking 0 0 0
      (record { queue = run_task 0 ∷ []; bound = 10_000; senders = 1; receiver = true }) [] host
      (board [] [] (mail (run_task 0 ∷ []))) host-Inv refl refl refl refl refl (λ h. cc)
      (omega arith)

-- Task 0 has panicked before.
abbrev poisoned_host : Host ℕ
poisoned_host = record host { tasks = λ t. record (task t) { poisoned = true } }

executor_thread-dies_example :
    (h' : Host ℕ) × (executor_thread poll 1 0 poisoned_host ≡ returned tt h')
    × (h'.manager.executors 0
        ≡ some (record { queue = []; bound = 10_000; senders = 1; receiver = false }))
    × (h'.manager.waiting_executors ≡ manager.waiting_executors)
    × (h'.panic_tx.queue ≡ tt ∷ [])
    × ((running : ℕ → Option ℕ) (ended : ℕ → Bool)
        → running 0 ≡ none
        → Reach
            (system poisoned_host running ended)
            (system h' (clear (insert running 0 0) 0) (end_of ended 0)))
executor_thread-dies_example =
    executor_thread-dies poll 0 0 0
      (record { queue = run_task 0 ∷ []; bound = 10_000; senders = 1; receiver = true }) []
      poisoned_host refl refl refl refl (omega arith)

-- Two executors have each been sent task 5.
abbrev sent_5 : Mpsc ExecutorTask
sent_5 = record { queue = run_task 5 ∷ []; bound = 10_000; senders = 1; receiver = true }

abbrev both_sent : System
both_sent = record {
  manager = record manager {
    executors = λ e. if e == 0 then some sent_5 else if e == 1 then some sent_5 else none;
  };
  running = idle;
  ended = all_run;
}

abbrev first_took : Locked
first_took = record {
  base = received_by both_sent 0 5 sent_5 [];
  point = move_to (unlocked both_sent).point 0 (wants 5);
  holder = λ t. none;
}

abbrev both_took : Locked
both_took = record {
  base = received_by first_took.base 1 5 sent_5 [];
  point = move_to first_took.point 1 (wants 5);
  holder = λ t. none;
}

abbrev first_polls : Locked
first_polls = record {
  base = both_took.base;
  point = move_to both_took.point 0 (polls 5);
  holder = insert both_took.holder 5 0;
}

lock_run : LockReach (unlocked both_sent) first_polls
lock_run =
    next_lock
      (next_lock (next_lock here_lock (takes 0 5 sent_5 [] refl refl refl))
        (takes 1 5 sent_5 [] refl refl refl))
      (locks 0 5 refl refl)

polls_once_example :
    (◌≡◌ {A = ℕ} 0 1) ⊎ ((first_polls.point 1 ≡ wants 5) ⊎ (first_polls.point 1 ≡ polled 5))
polls_once_example = polls_once both_sent first_polls 5 0 1 (λ i. refl) lock_run refl refl

-- Four executors, after the registration loop.
booted : Manager
booted = (boot_lem 4 (omega arith)).0

booted_eq : boot 4 0 create ≡ returned tt booted
unfolding booted
booted_eq = (boot_lem 4 (omega arith)).1

none_waits : Ring.len booted.waiting_tasks ≡ 0
unfolding booted
none_waits =
    let (m, p, b, v, (empty, quiet)) = boot_lem 4 (omega arith) in
    v.shown.tasks_held.counted ∙ ap (length {A = ℕ}) empty

-- Task 6 is spawned.
spawned :
    (m : Manager) × (register_or_execute_non_blocking_task (λ t. false) 6 booted ≡ returned tt m)
spawned =
    (reachable_calls_return 4 booted (idle_system booted) (λ t. false) (omega arith) booted_eq
        here).1
      6 (λ live full. omega (arith, none_waits))

abbrev spawned_6 : Locked
spawned_6 = record (unlocked (idle_system booted)) {
  base = record (idle_system booted) { manager = spawned.0 };
}

spawn_run : LockReach (unlocked (idle_system booted)) spawned_6
spawn_run = next_lock here_lock (
    hands (record (idle_system booted) { manager = spawned.0 })
      (submit (λ t. false) 6 spawned.0 spawned.1) refl)

mutexes_free_example :
    (b : Board) × Shows spawned_6.base.manager max_waiting b
    × ((u : Locked) (q : LockReach spawned_6 u) → Works q → lock_steps q ≤ lock_work 4 spawned_6 b)
    × (u : Locked) × (q : LockReach spawned_6 u) × Works q
    × AtRest 4 u.base
mutexes_free_example = mutexes_free 4 booted spawned_6 (omega arith) booted_eq spawn_run

-- A poll that makes a waker, which is cloned and woken; the task is accepted both times.
abbrev uses : List Use
uses = polls_task ∷ clones ∷ by_ref kept ∷ finishes ∷ wakes kept ∷ drops ∷ []

abbrev one_arc : Refs
one_arc = record { strong = 1; wakers = 0; held = 1 }

use_all-Balanced_example :
    Balanced (use_all uses one_arc)
    × ((use_all uses one_arc).strong ≡ 0
        → ((use_all uses one_arc).wakers ≡ 0) × ((use_all uses one_arc).held ≡ 0))
use_all-Balanced_example = use_all-Balanced uses one_arc refl (
  omega arith,
  (omega arith, ((omega arith, λ h. cc), (omega arith, (omega arith, (omega arith, tt))))),
)

-- A queue of one place, which is taken.
abbrev full_manager : Manager
full_manager = record {
  waiting_tasks = record { buffer = some 5 ∷ []; start = 0; end = 0; count = 1 };
  waiting_executors = record { buffer = none ∷ []; start = 0; end = 0; count = 0 };
  executors = λ e. none;
}

full-Shows : Shows full_manager 1 (board (5 ∷ []) [] (λ e. none))
full-Shows = record {
  tasks_held = record {
    sized = refl;
    small = omega arith;
    start_in = omega arith;
    fits = omega arith;
    counted = refl;
    ends = refl;
    held = refl;
  };
  idle_held = record {
    sized = refl;
    small = omega arith;
    start_in = omega arith;
    fits = omega arith;
    counted = refl;
    ends = refl;
    held = refl;
  };
  mailed = refl;
}

abbrev last_waker : Refs
last_waker = record { strong = 1; wakers = 1; held = 0 }

wake_by_ref-frees_example :
    ((use_once (by_ref (upgraded (λ t. false) 6 (some full_manager))) last_waker).strong ≡ 0)
    × ((use_once (by_ref (upgraded (λ t. false) 6 (some full_manager))) last_waker).wakers ≡ 1)
wake_by_ref-frees_example =
    wake_by_ref-frees (λ t. false) 6 1 full_manager (board (5 ∷ []) [] (λ e. none)) last_waker
      full-Shows refl refl refl refl refl refl
