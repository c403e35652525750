-- ===== src/Pool/Worker.antt =====
-- src/pool/thread_pool.rs: `init`, and the loop of a pool's thread.
use min_async_runtime.Base.{
  ℕ, zero, suc, ◌+◌, ◌%◌, ◌<◌, ◌≡◌, refl, sym, ap, map, ◌≢◌, Bool, true, false, List, [], ◌∷◌, ◌++◌,
  Option, none, some, ◌==◌, All, get_elem?, get_elem?-set_self, get_elem?-replicate, set, replicate,
  length, lt→ltb, returned, panicked, blocked, arith,
}
use native.Mathlib.Nat.{zero-mod}
use min_async_runtime.Base.Monad.{M, pure, ◌>>=◌, effects}
use min_async_runtime.Mpsc.{Mpsc, sync_channel, Sent, sent, full}
use min_async_runtime.Mpsc
use min_async_runtime.Pool.{
  Pool, jobs_bound, init, execute, get_and_update_index, work, after_job, sent_to,
}
use min_async_runtime.Pool.Turns.{Serving}

module _ {J : Type 0} where
  -- On a thread without a pool, `init` makes one of the number of threads asked for, whose queues
  -- are empty and have room for 1024 jobs; on a thread with a pool it changes nothing. A pool of no
  -- threads panics at every job.
  pub init_lem :
      (n : ℕ)
      → ((old : Pool J) → init n (some old) ≡ some old)
        × ((p : Pool J) × (init n none ≡ some p)
            × (0 < n → Serving p n 0 jobs_bound (λ w. []))
            × ((job : J) → n ≡ 0 → execute job p ≡ panicked p))
  unfolding init execute get_and_update_index
  init_lem n = (
    λ old. refl,
    (
      record { num_threads = n; cursor = 0; senders = replicate n (sync_channel jobs_bound) },
      refl,
      λ some_thread. record {
        threads = refl;
        some_thread = some_thread;
        turn = sym (zero-mod n);
        queued = λ w below. (
          sync_channel jobs_bound,
          get_elem?-replicate n w (sync_channel jobs_bound) below,
          refl,
          refl,
          omega arith,
        );
      },
      λ job none_at_all. rw none_at_all,
    ),
  )

  -- `count` rounds of a thread's loop, and the jobs that they ran.
  unfoldable pub rounds : (J → Bool) → ℕ → ℕ → M (Pool J) (List (Option J))
  rounds runs w zero = pure []
  rounds runs w (suc count) = do ran ← work runs w; later ← rounds runs w count; pure (ran ∷ later)

  -- A thread runs the jobs of its queue in the order in which they were sent.
  pub rounds_lem :
      (runs : J → Bool) (w : ℕ) (jobs rest : List J) (p : Pool J) (ch : Mpsc J)
      → All (λ job. runs job ≡ true) jobs
      → get_elem? p.senders w ≡ some ch
      → ch.queue ≡ jobs ++ rest
      → (p' : Pool J) × (rounds runs w (length jobs) p ≡ returned (map some jobs) p')
        × (get_elem? p'.senders w ≡ some (record ch { queue = rest }))
  unfolding rounds work
  rounds_lem runs w [] rest p ch fine found q = (p, refl, rw (← q) found)
  rounds_lem runs w (job ∷ jobs) rest p ch (fine, all) found q =
      let ch₁ = record ch { queue = jobs ++ rest } in
      let p₁ : Pool J = record p { senders = set p.senders w ch₁ } in
      let (p', e, found') =
        rounds_lem runs w jobs rest p₁ ch₁ all (get_elem?-set_self p.senders w ch₁ found) refl in
      (p', rw found (rw (q, after_job) (rw fine (rw (e, effects)))), found')

  -- A job that panics ends its thread, and the panic does not stay there: the thread's next turn
  -- makes `execute` panic in the caller.
  pub work-execute_panics :
      (runs : J → Bool) (p : Pool J) (ch : Mpsc J) (bad job : J) (later : List J)
      → runs bad ≡ false
      → p.num_threads ≢ 0
      → get_elem? p.senders p.cursor ≡ some ch
      → ch.queue ≡ bad ∷ later
      → (p₁ p₂ : Pool J) × (work runs p.cursor p ≡ returned none p₁)
        × (execute job p₁ ≡ panicked p₂)
  unfolding work execute get_and_update_index
  work-execute_panics runs p ch bad job later unwinds some_thread found q =
      let here : (p.num_threads == 0) ≡ false = ground arith in
      let dead = record ch { queue = later; receiver = false } in
      let p₁ : Pool J = record p { senders = set p.senders p.cursor dead } in
      (
        p₁,
        record p₁ { cursor = (p.cursor + 1) % p.num_threads },
        rw found (rw (q, after_job) (rw unwinds)),
        rw here (rw (get_elem?-set_self p.senders p.cursor dead found)),
      )

module _ {J : Type 0} (p : Pool J) (ch : Mpsc J) (some_thread : p.num_threads ≢ 0)
    (found : get_elem? p.senders p.cursor ≡ some ch) where
  -- A job for an idle thread is the next that it runs.
  pub execute-work :
      (runs : J → Bool) (job : J)
      → runs job ≡ true
      → ch.receiver ≡ true
      → ch.queue ≡ []
      → 0 < ch.bound
      → (p₁ p₂ : Pool J) × (execute job p ≡ returned tt p₁)
        × (work runs p.cursor p₁ ≡ returned (some job) p₂)
  unfolding work execute get_and_update_index
  execute-work runs job fine alive idle place =
      let here : (p.num_threads == 0) ≡ false = ground arith in
      let ch₁ = record ch { queue = job ∷ [] } in
      let taken : Mpsc.send ch job ≡ sent ch₁ =
        rw alive (
          rw (lt→ltb (length ch.queue) ch.bound (omega (arith, ap length idle, place)))
            (rw idle)) in
      let p₁ : Pool J = record p {
        cursor = (p.cursor + 1) % p.num_threads;
        senders = set p.senders p.cursor ch₁;
      } in
      (
        p₁,
        record p₁ { senders = set p₁.senders p.cursor (record ch { queue = [] }) },
        rw here (rw found (rw (taken, sent_to))),
        rw (get_elem?-set_self p.senders p.cursor ch₁ found) (rw fine),
      )

  -- A job for a thread that has died makes `execute` panic; one for a full queue makes it wait.
  pub execute_fails :
      (job : J)
      → (ch.receiver ≡ false → (p₁ : Pool J) × (execute job p ≡ panicked p₁))
        × (ch.receiver ≡ true → length ch.queue ≡ ch.bound → execute job p ≡ blocked)
  unfolding execute get_and_update_index
  execute_fails job =
      let here : (p.num_threads == 0) ≡ false = ground arith in
      (
        λ dead.
            (record p { cursor = (p.cursor + 1) % p.num_threads }, rw here (rw found (rw dead))),
        λ alive at_bound.
            let waits : Mpsc.send ch job ≡ full = ground (arith, at_bound) in
            rw here (rw found (rw (waits, sent_to))),
      )
