-- ===== src/Runtime/Tests.antt =====
-- src/runtime.rs at a thread that has no runtime yet, and at one whose runtime has three workers.
use min_async_runtime.Base.{
  ℕ, zero, suc, get_elem?, ◌+◌, ◌==◌, ltb, if◌then◌else◌, ◌≡◌, refl, true, false, List, [], ◌∷◌,
  none, some, returned, panicked, arith,
}
use min_async_runtime.Mpsc.{Mpsc, sync_channel}
use min_async_runtime.Manager.{Manager, create, register_or_execute_non_blocking_task}
use min_async_runtime.Ring.{Ring}
use min_async_runtime.Ring.Refine.{Holds}
use min_async_runtime.Manager.Board.{Shows}
use min_async_runtime.Manager.Refine.{board, register_or_execute_lem}
use min_async_runtime.Runtime.{
  Runtime, Thread, handle, handle_spawn, new_builder, with_num_workers, build, num_workers,
  run_blocking, with_manager,
}
use min_async_runtime.Executor.{Poll, Host}
use min_async_runtime.Executor
use min_async_runtime.Executor.Drive.{last, yield, relay}
use min_async_runtime.Reactor.{Reactor}
use min_async_runtime.Spawner
use min_async_runtime.Spawner.{JoinHandle, Site, with_rx}
use min_async_runtime.Channel.{Channel}
use min_async_runtime.Channel.Wake.{reactor_turn}
use min_async_runtime.Base.Future.{pending, ready, ok}
use min_async_runtime.Runtime.Spawning.{Spawned, spawned_rounds, build-handle_spawn}
use min_async_runtime.Runtime.Reports.{breaks, yields, run_blocking-after_panic}
use min_async_runtime.Runtime.Blocking.{Call, started, blocking_rounds}
use min_async_runtime.Runtime.Sequence.{Job, BlockingCalls, build-run_blocking}
use min_async_runtime.Runtime.Workers.{Covers, Rests}
use min_async_runtime.Runtime.Guard.{run_blocking-build}
use min_async_runtime.Runtime.Worker.{
  Building, Worker, build_wired, start_worker, build-start_worker,
}
use min_async_runtime.Pool.{Pool}

abbrev new_thread : Thread ℕ
new_thread = record { guard = false; runtime = none; manager = none; pool = none }

builder_test : with_num_workers 2 new_builder ≡ record { num_workers = 2 }
builder_test = refl

abbrev no_places : Ring ℕ
no_places = record { buffer = none ∷ none ∷ []; start = 0; end = 0; count = 0 }

no_places-Holds : Holds no_places 2 []
no_places-Holds = record {
  sized = refl;
  small = omega arith;
  start_in = omega arith;
  fits = omega arith;
  counted = refl;
  ends = refl;
  held = refl;
}

abbrev busy_manager : Manager
busy_manager = record {
  waiting_tasks = no_places;
  waiting_executors = no_places;
  executors = λ e. none;
}

-- The manager takes task 5.
accepted :
    (m : Manager) × (register_or_execute_non_blocking_task (λ t. false) 5 busy_manager
      ≡ returned tt m)
accepted =
    let shown : Shows busy_manager 2 (board [] [] (λ e. none)) = record {
      tasks_held = no_places-Holds;
      idle_held = no_places-Holds;
      mailed = refl;
    } in
    let (m, p, _) =
      register_or_execute_lem (λ t. false) busy_manager 2 _ shown 5 (λ live idle. omega arith)
        (λ e es h. absurd (cc)) in
    (m, p)

abbrev three_workers : Runtime
three_workers = record { handles = 3; panic_rx = sync_channel 1 }

abbrev thread : Thread ℕ
thread = record {
  guard = true;
  runtime = some three_workers;
  manager = some busy_manager;
  pool = none;
}

run_blocking-build_example :
    (run_blocking {T = ℕ} 5 (some 40) [] thread ≡ returned 40 (with_manager accepted.0 thread))
    × ((t₁ t₂ : Thread ℕ) × (rt' : Runtime) × (run_blocking {T = ℕ} 5 (some 40) (tt ∷ []) thread
          ≡ panicked t₁)
        × (build (record { num_workers = 4 }) t₁ ≡ returned rt' t₂)
        × (num_workers t₂ ≡ returned 3 t₂))
    × ((reports : List (Unit {0}))
        → (t' : Thread ℕ) × (run_blocking {T = ℕ} 5 none reports thread ≡ panicked t')
          × (build (record { num_workers = 4 }) t' ≡ panicked t'))
run_blocking-build_example =
    run_blocking-build 5 4 40 three_workers busy_manager accepted.0 thread refl refl refl accepted.1

abbrev building : Building ℕ
building = record { thread = new_thread; tm_txs = []; hp_txs = []; runtime_txs = [] }

build-start_worker_example :
    (rt : Runtime) × (b₁ : Building ℕ) × (tm_rx : Mpsc Manager) × (hp_rx : Mpsc (Pool ℕ))
    × (runtime_rx : Mpsc Runtime) × (w₁ : Worker ℕ) × (build_wired
          (record { num_workers = 3 })
          building
        ≡ returned rt b₁)
    × (build (record { num_workers = 3 }) new_thread ≡ returned rt b₁.thread)
    × (get_elem? b₁.tm_txs 2 ≡ some tm_rx)
    × (get_elem? b₁.hp_txs 2 ≡ some hp_rx)
    × (get_elem? b₁.runtime_txs 2 ≡ some runtime_rx)
    × (start_worker
          (record { thread = new_thread; tm_rx = tm_rx; hp_rx = hp_rx; runtime_rx = runtime_rx })
        ≡ returned tt w₁)
    × (w₁.thread.manager ≡ b₁.thread.manager)
    × (w₁.thread.pool ≡ b₁.thread.pool)
    × (handle b₁.thread ≡ returned rt b₁.thread)
    × (handle w₁.thread ≡ returned rt w₁.thread)
    × (num_workers w₁.thread ≡ returned 3 w₁.thread)
    × ((k : ℕ) → build (record { num_workers = k }) w₁.thread ≡ panicked w₁.thread)
build-start_worker_example =
    build-start_worker 3 2 building new_thread (omega arith) (omega arith) refl refl refl refl

-- A future that counts down to 0, yielding at each number.
abbrev countdown : ℕ → Poll ℕ
countdown zero = record { wakes = []; polled = Executor.ready }
countdown (suc k) = record { wakes = 5 ∷ []; polled = Executor.pending k }

abbrev counting : Host ℕ
counting = record {
  tasks = λ t. record { future = some 2; poisoned = false; task_tag = t; abort = false };
  manager = create;
  panic_tx = sync_channel 1;
}

abbrev count_two : Job countdown
count_two = record {
  task = 5;
  tag = 0;
  k = 2;
  fut = 2;
  end = 0;
  yields = yield refl (yield refl (last refl));
}

abbrev count_one : Job countdown
count_one = record { task = 5; tag = 1; k = 1; fut = 1; end = 0; yields = yield refl (last refl) }

build-run_blocking_example :
    (rt : Runtime) × (t₁ t' : Thread ℕ) × (m : Manager) × (h' : Host ℕ) × (build
        (record { num_workers = 2 })
        new_thread
      ≡ returned rt t₁)
    × (t₁.manager ≡ some m)
    × BlockingCalls countdown
        (λ f. f + 40)
        2
        t₁
        (record counting { manager = m })
        (count_two ∷ count_one ∷ [])
        t'
        h'
    × (t'.manager ≡ some h'.manager)
    × Rests 2 h'.manager
build-run_blocking_example =
    build-run_blocking countdown (λ f. f + 40) 2 new_thread (count_two ∷ count_one ∷ []) counting
      (omega arith) (omega arith) refl refl refl

-- A future that counts up to 3, yielding at each number, and then panics; from 4 it is ready.
abbrev fragile : ℕ → Poll ℕ
fragile f =
    if f == 3
    then record { wakes = []; polled = Executor.panics }
    else if ltb f 3
    then record { wakes = 5 ∷ []; polled = Executor.pending (f + 1) }
    else record { wakes = []; polled = Executor.ready }

run_blocking-after_panic_example :
    (rt rt' : Runtime) × (t₁ t₂ t₃ : Thread ℕ) × (m m' : Manager) × (order order' : List ℕ) × (c
      c' : Call ℕ ℕ)
    × (build (record { num_workers = 2 }) new_thread ≡ returned rt t₁)
    × (run_blocking {T = ℕ} 5 none [] t₁ ≡ panicked (with_manager m t₁))
    × (blocking_rounds fragile (λ f. f + 40) (relay 3 order) 5 (started 5 0 1 m counting)
        ≡ returned tt c)
    × (c.rx.queue ≡ [])
    × (register_or_execute_non_blocking_task (λ t. false) 6 c.host.manager ≡ returned tt m')
    × (blocking_rounds fragile (λ f. f + 40) (relay 1 order') 6 (started 6 1 4 m' c.host)
        ≡ returned tt c')
    × (c'.rx.queue ≡ 44 ∷ [])
    × (run_blocking {T = ℕ} 6 (some 44) c'.host.panic_tx.queue (with_manager c.host.manager t₁)
        ≡ panicked t₂)
    × (build (record { num_workers = 2 }) t₂ ≡ returned rt' t₃)
run_blocking-after_panic_example =
    run_blocking-after_panic fragile (λ f. f + 40) new_thread 2 5 0 2 1 6 1 0 4 4 counting
      (omega arith) (omega arith) refl refl refl refl (yields refl (yields refl (breaks refl)))
      (last refl)

abbrev no_tags : Reactor
no_tags = record { reactor_tag_buffer = no_places; reactor_tags = λ t. none; statuses = λ t. none }

abbrev site : Site ℕ
site = record { host = counting; reactor = no_tags; reactor_tag_num = 3; task_tag_num = 8 }

no_tags-Holds : Holds site.reactor.reactor_tag_buffer 2 []
no_tags-Holds = no_places-Holds

build-handle_spawn_example :
    (rt : Runtime) × (t₁ : Thread ℕ) × (m : Manager) × (jh jh₁ jh₂ : JoinHandle ℕ) × (s' : Site ℕ)
    × (order : List ℕ) × (c : Spawned ℕ ℕ) × (rx : Channel ℕ) × (build
          (record { num_workers = 2 })
          new_thread
        ≡ returned rt t₁)
    × Covers 2 order
    × (t₁.manager ≡ some m)
    × (handle_spawn t₁.runtime 5 2 (record site { host = record counting { manager = m } })
        ≡ returned jh s')
    × (jh.task ≡ 5)
    × (Spawner.poll 9 jh ≡ returned pending jh₁)
    × (spawned_rounds countdown
          (λ f. f + 40)
          (relay 3 order)
          5
          (record { host = s'.host; jh = jh₁ })
        ≡ returned tt c)
    × ((c.host.tasks 5).future ≡ none)
    × Rests 2 c.host.manager
    × (reactor_turn c.jh.rx ≡ returned (9 ∷ []) rx)
    × (Spawner.poll 9 (with_rx rx c.jh) ≡ returned (ready (ok 40)) jh₂)
build-handle_spawn_example =
    build-handle_spawn countdown (λ f. f + 40) new_thread 2 5 2 9 2 0 2 site (omega arith)
      (omega arith) refl refl refl no_tags-Holds (omega arith) (yield refl (yield refl (last refl)))
