-- ===== src/Runtime/Sequence.antt =====
-- src/runtime.rs `run_blocking`, one call after the other, on a runtime with any number of workers.
use min_async_runtime.Base.{ℕ, suc, ◌<◌, ◌≡◌, refl, false, List, [], ◌∷◌, none, some, returned}
use min_async_runtime.Manager.{Manager, max_waiting}
use min_async_runtime.Executor.{Poll, Host}
use min_async_runtime.Executor.Drive.{Yields, relay}
use min_async_runtime.Runtime.{Runtime, Thread, build, run_blocking, with_manager}
use min_async_runtime.Runtime.Workers.{Covers, Rests, build-Rests}
use min_async_runtime.Runtime.Blocking.{Call, started, blocking_rounds, run_blocking-rounds}

module _ {F : Type 0} (poll : F → Poll F) where
  -- A future that yields `k` times and is then ready in the state `end`, as the task `task`.
  pub record Job : Type 0 where
    pub task : ℕ
    pub tag : ℕ
    pub k : ℕ
    pub fut : F
    pub end : F
    pub yields : Yields poll task end k fut

module _ {F T J : Type 0} (poll : F → Poll F) (value : F → T) (n : ℕ) where
  -- Calls of `run_blocking` for the jobs, from a thread and the executors' host to the thread and
  -- the host after them. In a call the workers take turns, in an order in which each of them occurs
  -- once; the output that they send is what the call returns, and nobody has reported a panic.
  pub data BlockingCalls : Thread J → Host F → List (Job poll) → Thread J → Host F → Type 0 where
    no_call : {t : Thread J} {h : Host F} → BlockingCalls t h [] t h
    call :
        {t t' : Thread J} {h h' : Host F} {jobs : List (Job poll)} (job : Job poll) (order : List ℕ)
        (m : Manager) (c : Call F T)
        → Covers n order
        → run_blocking job.task (some (value job.end)) [] t
          ≡ returned (value job.end) (with_manager m t)
        → blocking_rounds poll value
            (relay (suc job.k) order)
            job.task
            (started job.task job.tag job.fut m h)
          ≡ returned tt c
        → c.rx.queue ≡ value job.end ∷ []
        → (c.host.tasks job.task).future ≡ none
        → BlockingCalls (with_manager c.host.manager t) c.host jobs t' h'
        → BlockingCalls t h (job ∷ jobs) t' h'

  calls_lem :
      (jobs : List (Job poll)) (t : Thread J) (h : Host F) (rt : Runtime)
      → 0 < n
      → t.runtime ≡ some rt
      → t.manager ≡ some h.manager
      → Rests n h.manager
      → (t' : Thread J) × (h' : Host F) × BlockingCalls t h jobs t' h'
        × (t'.manager ≡ some h'.manager)
        × Rests n h'.manager
  calls_lem [] t h rt some_worker has_runtime managed rests = (t, h, no_call, managed, rests)
  calls_lem (job ∷ jobs) t h rt some_worker has_runtime managed rests =
      let (order, m, c, all, returns, rounds, result, dropped, rests₁, _, _) =
        run_blocking-rounds poll value t n job.task job.tag job.k job.end job.fut h rt some_worker
          has_runtime managed rests job.yields in
      let (t', h', calls, managed', rests') =
        calls_lem jobs (with_manager c.host.manager t) c.host rt some_worker has_runtime refl
          rests₁ in
      (t', h', call job order m c all returns rounds result dropped calls, managed', rests')

  -- On a thread that has no runtime and no manager yet: `build` with `n` workers, at least one and
  -- fewer than `max_waiting`, returns. Then `run_blocking` can be called for any list of futures,
  -- one after the other, each of which yields any number of times, waking itself each time, and is
  -- then ready: each call returns the output of its future, which the workers, polling it in turns,
  -- have sent back, and the future has been dropped. In the end all workers are idle again, with
  -- nothing in their mailboxes, and no task waits.
  pub build-run_blocking :
      (t : Thread J) (jobs : List (Job poll)) (h : Host F)
      → 0 < n
      → n < max_waiting
      → t.guard ≡ false
      → t.runtime ≡ none
      → t.manager ≡ none
      → (rt : Runtime) × (t₁ t' : Thread J) × (m : Manager) × (h' : Host F) × (build
            (record { num_workers = n })
            t
          ≡ returned rt t₁)
        × (t₁.manager ≡ some m)
        × BlockingCalls t₁ (record h { manager = m }) jobs t' h'
        × (t'.manager ≡ some h'.manager)
        × Rests n h'.manager
  build-run_blocking t jobs h some_worker few free vacant unmanaged =
      let (rt, t₁, m, built, has_runtime, managed, rests) =
        build-Rests n t few free vacant unmanaged in
      let (t', h', calls, managed', rests') =
        calls_lem jobs t₁ (record h { manager = m }) rt some_worker has_runtime managed rests in
      (rt, t₁, t', m, h', built, managed, calls, managed', rests')
