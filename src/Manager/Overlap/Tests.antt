-- ===== src/Manager/Overlap/Tests.antt =====
-- src/task/manager.rs called by several threads: a run of two calls on four idle executors, and a
-- handover that overlaps with the end of a poll.
use min_async_runtime.Base.{
  ℕ, ◌≡◌, ◌+◌, ◌⊎◌, refl, Bool, true, false, [], ◌∷◌, Option, none, some, ◌==◌, if◌then◌else◌,
  returned, panicked, arith,
}
use min_async_runtime.Mpsc.{Mpsc, sync_channel}
use min_async_runtime.Ring
use min_async_runtime.Ring.{Ring}
use min_async_runtime.Ring.Refine.{Holds}
use min_async_runtime.Manager.{Manager, ExecutorTask, create, max_waiting}
use min_async_runtime.Manager.Board.{Board, Shows}
use min_async_runtime.Manager.Refine.{board}
use min_async_runtime.Manager.System.{boot, clear}
use min_async_runtime.Manager.Boot.{boot_lem}
use min_async_runtime.Manager.Accounts.{only}
use min_async_runtime.Manager.Overlap.{
  Call, registers, seeks, stores, over, call_step, Threads, Turn, hands, goes_on, Turns, start,
  then_turn,
}
use min_async_runtime.Manager.Overlap.Places.{Placed}
use min_async_runtime.Manager.Overlap.Conserved.{stock}
use min_async_runtime.Manager.Overlap.Runs.{
  all_idle, all_handed, all_ended, all_dropped, boot-Placed, boot-calls_go,
}
use min_async_runtime.Manager.Overlap.Stranded.{Elsewhere, threads, handover_strands}

abbrev aborted : ℕ → Bool
aborted t = t == 5

-- The manager after the registration of four executors.
booted : Manager
booted = (boot_lem 4 (omega arith)).0

booted_eq : boot 4 0 create ≡ returned tt booted
unfolding booted
booted_eq = (boot_lem 4 (omega arith)).1

-- Tasks 6 and 7 are handed over, and the first call goes on.
abbrev two_calls : Threads
two_calls = record (all_idle booted) { calls = seeks 6 ∷ registers 7 ∷ [] }

two_calls_run : Turns (all_idle booted) two_calls
unfolding call_step
two_calls_run =
    then_turn (then_turn (then_turn start (hands 6)) (hands 7))
      (goes_on aborted 0 (registers 6) (seeks 6) booted (λ h. cc) refl refl)

boot-Placed_example :
    (b : Board) × Placed 4 max_waiting two_calls b
    × (stock 4 (only 7) two_calls b
          + all_ended two_calls_run (only 7)
          + all_dropped two_calls_run (only 7)
        ≡ all_handed two_calls_run (only 7))
boot-Placed_example = boot-Placed 4 booted two_calls two_calls_run (omega arith) booted_eq (only 7)

boot-calls_go_example :
    ((c' : Call) × (m' : Manager) × (call_step aborted (seeks 6) booted ≡ returned c' m'))
    ⊎ ((t : ℕ) × (seeks 6 ≡ stores t)
        × (Ring.len booted.waiting_tasks ≡ max_waiting)
        × (call_step aborted (seeks 6) booted ≡ panicked booted))
boot-calls_go_example =
    boot-calls_go 4 booted two_calls two_calls_run (omega arith) booted_eq aborted 0 (seeks 6) refl

abbrev no_places : Ring ℕ
no_places = record { buffer = none ∷ none ∷ []; start = 0; end = 0; count = 0 }

no_places-Holds : Holds no_places 2 []
no_places-Holds = record {
  sized = refl;
  small = omega arith;
  start_in = omega arith;
  fits = omega arith;
  counted = refl;
  ends = refl;
  held = refl;
}

abbrev mail : ℕ → Option (Mpsc ExecutorTask)
mail e = if e == 0 then some (sync_channel 10_000) else none

-- The one executor polls task 5.
abbrev running : ℕ → Option ℕ
running e = if e == 0 then some 5 else none

abbrev one_busy : Manager
one_busy = record { waiting_tasks = no_places; waiting_executors = no_places; executors = mail }

one_busy-Placed : Placed 1 2 (threads one_busy running []) (board [] [] mail)
one_busy-Placed = record {
  shown = record { tasks_held = no_places-Holds; idle_held = no_places-Holds; mailed = refl };
  seated = λ e below.
      let first : (e == 0) ≡ true = ground arith in
      (sync_channel 10_000, rw first refl, refl, refl, rw first refl);
  others = λ e above.
      let other : (e == 0) ≡ false = ground arith in (refl, rw other refl, rw other refl, refl);
}

handover_strands_example :
    (m' : Manager) × Turns
      (threads one_busy running [])
      (threads m' (clear running 0) (over ∷ over ∷ []))
    × Shows m' 2 (board (6 ∷ []) (0 ∷ []) mail)
    × ((u : Threads) (turn : Turn (threads m' (clear running 0) (over ∷ over ∷ [])) u)
        → Elsewhere 1 0 turn)
handover_strands_example =
    handover_strands aborted 1 2 0 5 6 one_busy running mail (omega arith) one_busy-Placed refl refl
