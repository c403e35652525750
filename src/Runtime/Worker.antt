-- ===== src/Runtime/Worker.antt =====
-- src/runtime.rs: what `RuntimeBuilder::build` sends to the executors' threads, and how they fill
-- their cells with it before they run the executor.
use min_async_runtime.Base.{
  ℕ, zero, suc, ◌<◌, ◌≡◌, refl, true, false, List, [], ◌∷◌, Option, none, some, get_elem?,
  replicate, returned, panicked, blocked, Exit, arith,
}
use min_async_runtime.Base.Monad.{M, pure, ◌>>=◌, ◌>>◌, get, modify, on, place, panic, effects}
use min_async_runtime.Manager.{Manager, max_waiting}
use min_async_runtime.Manager.System.{boot}
use min_async_runtime.Manager.Boot.{boot-Reach-Inv}
use min_async_runtime.Mpsc.{
  Mpsc, sync_channel, Sent, sent, full, disconnected, Received, received, empty, hung_up,
}
use min_async_runtime.Mpsc
use min_async_runtime.Pool.{Pool, init, get_or_init}
use min_async_runtime.Runtime.{
  RuntimeBuilder, Runtime, Thread, build, num_workers, handle, set_runtime_guard, on_manager,
  get_manager, get_or_start,
}

-- `OnceCell::get_or_init` with a value that is there.
abbrev pub set_once : {A : Type 0} → A → Option A → Option A
set_once a none = some a
set_once a (some b) = some b

-- `tx.send(a).unwrap()` on the channels of the list, one after the other. A manager or a pool that
-- is sent is in the state that it has then.
module _ {A : Type 0} where
  abbrev pub after_first :
      Mpsc A
      → List (Mpsc A)
      → Exit (List (Mpsc A)) (Unit {0})
      → Sent A
      → Exit (List (Mpsc A)) (Unit {0})
  after_first ch chs rest (sent ch') = place (λ chs' _. ch' ∷ chs') (ch ∷ chs) rest
  after_first ch chs rest full = blocked
  after_first ch chs rest disconnected = panicked (ch ∷ chs)

  unfoldable pub send_each : A → M (List (Mpsc A)) (Unit {0})
  send_each a [] = returned tt []
  send_each a (ch ∷ chs) = after_first ch chs (send_each a chs) (Mpsc.send ch a)

  -- `rx.recv().unwrap()`
  abbrev pub unwrap_received : Mpsc A → Received A → Exit (Mpsc A) A
  unwrap_received ch (received a ch') = returned a ch'
  unwrap_received ch empty = blocked
  unwrap_received ch hung_up = panicked ch

  abbrev pub recv_unwrapped : M (Mpsc A) A
  recv_unwrapped ch = unwrap_received ch (Mpsc.try_recv ch)

  -- A channel of one place that holds `a`.
  abbrev pub holding : A → Mpsc A
  holding a = record (sync_channel 1) { queue = a ∷ [] }

  send_each-new :
      (n : ℕ) (a : A)
      → send_each a (replicate n (sync_channel 1)) ≡ returned tt (replicate n (holding a))
  unfolding send_each
  send_each-new zero a = refl
  send_each-new (suc n) a = rw (send_each-new n a, place) refl

  get_elem?-replicate : (n i : ℕ) (a : A) → i < n → get_elem? (replicate n a) i ≡ some a
  get_elem?-replicate zero i a below = absurd (omega arith)
  get_elem?-replicate (suc n) zero a below = refl
  get_elem?-replicate (suc n) (suc i) a below = get_elem?-replicate n i a (omega arith)

-- The building thread, and the channels to the workers: `tm_txs`, `hp_txs` and `runtime_txs`.
pub record Building (J : Type 0) : Type 0 where
  pub thread : Thread J
  pub tm_txs : List (Mpsc Manager)
  pub hp_txs : List (Mpsc (Pool J))
  pub runtime_txs : List (Mpsc Runtime)

-- A worker's thread, with the receivers of its three channels.
pub record Worker (J : Type 0) : Type 0 where
  pub thread : Thread J
  pub tm_rx : Mpsc Manager
  pub hp_rx : Mpsc (Pool J)
  pub runtime_rx : Mpsc Runtime

module _ {J : Type 0} where
  abbrev pub of_thread : {A : Type 0} → M (Thread J) A → M (Building J) A
  of_thread = on (λ b. b.thread) (λ t b. record b { thread = t })

  -- The channels that the loop over the workers makes.
  abbrev pub new_channels : ℕ → M (Building J) (Unit {0})
  new_channels n = modify (λ b. record b {
    tm_txs = replicate n (sync_channel 1);
    hp_txs = replicate n (sync_channel 1);
    runtime_txs = replicate n (sync_channel 1);
  })

  -- `hp_txs.into_iter()…`; `HoochPool::get` panics without a pool.
  abbrev pub send_pool : Option (Pool J) → M (Building J) (Unit {0})
  send_pool none = panic
  send_pool (some hooch_pool) =
      on (λ b. b.hp_txs) (λ chs b. record b { hp_txs = chs }) (send_each hooch_pool)

  -- The closure of `get_or_init`, with the sends.
  abbrev pub start_wired : ℕ → M (Building J) (Unit {0})
  start_wired n = do
    of_thread (modify (λ t. record t { pool = init 1 t.pool }))
    new_channels n
    of_thread (on_manager (boot n 0))
    b ← get
    on (λ b. b.tm_txs) (λ chs b. record b { tm_txs = chs })
        (send_each (get_manager b.thread.manager))
    send_pool b.thread.pool
    let rt : Runtime = record { handles = n; panic_rx = sync_channel 1 }
    on (λ b. b.runtime_txs) (λ chs b. record b { runtime_txs = chs }) (send_each rt)
    of_thread (modify (λ t. record t { runtime = some rt }))

  abbrev pub wired_or_start : ℕ → Option Runtime → M (Building J) (Unit {0})
  wired_or_start n (some rt) = pure tt
  wired_or_start n none = start_wired n

  -- `build`, with the sends.
  unfoldable pub build_wired : RuntimeBuilder → M (Building J) Runtime
  build_wired builder = do
    of_thread set_runtime_guard
    b ← get
    wired_or_start builder.num_workers b.thread.runtime
    of_thread handle

  abbrev pub in_worker : {A : Type 0} → M (Thread J) A → M (Worker J) A
  in_worker = on (λ w. w.thread) (λ t w. record w { thread = t })

  -- What an executor's thread does before it runs the executor.
  unfoldable pub start_worker : M (Worker J) (Unit {0})
  start_worker = do
    tm ← on (λ w. w.tm_rx) (λ ch w. record w { tm_rx = ch }) recv_unwrapped
    in_worker (modify (λ t. record t { manager = set_once tm t.manager }))
    hooch_pool ← on (λ w. w.hp_rx) (λ ch w. record w { hp_rx = ch }) recv_unwrapped
    in_worker (modify (λ t. record t { pool = set_once hooch_pool t.pool }))
    runtime ← on (λ w. w.runtime_rx) (λ ch w. record w { runtime_rx = ch }) recv_unwrapped
    in_worker (modify (λ t. record t { runtime = set_once runtime t.runtime }))
    in_worker set_runtime_guard

  -- `build` on a thread that has no runtime and no manager yet, for fewer than `max_waiting`
  -- workers, returns, with its sends too, which change nothing else of what it does. To each of the
  -- `n` workers it has sent three messages; the worker's new thread `w`, which receives them, fills
  -- its cells and sets its guard, and does not wait any more. Its manager, pool and runtime are then
  -- those of the building thread, so that `handle` and `num_workers` answer in a task as they do
  -- outside, and in a task `build` panics, and changes nothing.
  pub build-start_worker :
      (n i : ℕ) (b : Building J) (w : Thread J)
      → n < max_waiting
      → i < n
      → b.thread.guard ≡ false
      → b.thread.runtime ≡ none
      → b.thread.manager ≡ none
      → w ≡ record { guard = false; runtime = none; manager = none; pool = none }
      → (rt : Runtime) × (b₁ : Building J) × (tm_rx : Mpsc Manager) × (hp_rx : Mpsc (Pool J))
        × (runtime_rx : Mpsc Runtime) × (w₁ : Worker J) × (build_wired
              (record { num_workers = n })
              b
            ≡ returned rt b₁)
        × (build (record { num_workers = n }) b.thread ≡ returned rt b₁.thread)
        × (get_elem? b₁.tm_txs i ≡ some tm_rx)
        × (get_elem? b₁.hp_txs i ≡ some hp_rx)
        × (get_elem? b₁.runtime_txs i ≡ some runtime_rx)
        × (start_worker
              (record { thread = w; tm_rx = tm_rx; hp_rx = hp_rx; runtime_rx = runtime_rx })
            ≡ returned tt w₁)
        × (w₁.thread.manager ≡ b₁.thread.manager)
        × (w₁.thread.pool ≡ b₁.thread.pool)
        × (handle b₁.thread ≡ returned rt b₁.thread)
        × (handle w₁.thread ≡ returned rt w₁.thread)
        × (num_workers w₁.thread ≡ returned n w₁.thread)
        × ((k : ℕ) → build (record { num_workers = k }) w₁.thread ≡ panicked w₁.thread)
  unfolding start_worker set_runtime_guard build build_wired num_workers handle init
  build-start_worker n i b w small below free vacant unmanaged fresh =
      let (m, booted, _) = boot-Reach-Inv n small in
      let rt : Runtime = record { handles = n; panic_rx = sync_channel 1 } in
      let hooch_pool = get_or_init 1 b.thread.pool in
      let t₁ : Thread J = record {
        guard = true;
        runtime = some rt;
        manager = some m;
        pool = some hooch_pool;
      } in
      (
        rt,
        record {
          thread = t₁;
          tm_txs = replicate n (holding m);
          hp_txs = replicate n (holding hooch_pool);
          runtime_txs = replicate n (holding rt);
        },
        holding m,
        holding hooch_pool,
        holding rt,
        record {
          thread = t₁;
          tm_rx = sync_channel 1;
          hp_rx = sync_channel 1;
          runtime_rx = sync_channel 1;
        },
        simp (
          free,
          vacant,
          unmanaged,
          booted,
          send_each-new n m,
          send_each-new n hooch_pool,
          send_each-new n rt,
          wired_or_start,
          get_manager,
          effects,
        ),
        simp (free, vacant, unmanaged, booted, get_or_start, get_manager, effects),
        get_elem?-replicate n i (holding m) below,
        get_elem?-replicate n i (holding hooch_pool) below,
        get_elem?-replicate n i (holding rt) below,
        rw fresh refl,
        refl,
        refl,
        refl,
        refl,
        refl,
        λ k. refl,
      )
