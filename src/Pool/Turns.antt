-- ===== src/Pool/Turns.antt =====
-- src/pool/thread_pool.rs `execute`: the threads take turns.
use min_async_runtime.Base.{
  ℕ, suc, ◌+◌, ◌%◌, ◌<◌, ◌≤◌, ◌≡◌, ◌∙◌, refl, sym, ap, inl, inr, true, false, List, [], ◌∷◌, ◌++◌,
  some, ◌==◌, if◌then◌else◌, Bool-cases, get_elem?, get_elem?-set_self, get_elem?-set_ne, set,
  length, length-append, returned, arith,
}
use native.Mathlib.Nat.{mod-lt, suc-mod}
use mathlib.Core.List.{append-nil, append_assoc}
use min_async_runtime.Base.Monad.{effects}
use min_async_runtime.Mpsc.{Mpsc, Sent, sent}
use min_async_runtime.Mpsc
use min_async_runtime.Pool.{Pool, execute, execute_all, get_and_update_index, sent_to}

module _ {J : Type 0} where
  -- The jobs that fall to thread `w` of `n`, when the first of them is job number `k`.
  unfoldable pub share : ℕ → ℕ → ℕ → List J → List J
  share n w k [] = []
  share n w k (job ∷ jobs) =
      let rest = share n w (suc k) jobs in if k % n == w then job ∷ rest else rest

  -- The queue of thread `w` holds `q`, and has room for `spare` jobs more.
  abbrev pub Queue : Pool J → ℕ → ℕ → List J → Type 0
  Queue p spare w q =
      (ch : Mpsc J) × (get_elem? p.senders w ≡ some ch)
      × (ch.receiver ≡ true)
      × (ch.queue ≡ q)
      × (length q + spare ≤ ch.bound)

  -- A pool of `n` threads that has been given `k` jobs; thread `w` has the queue `queues w`.
  pub record Serving (p : Pool J) (n k spare : ℕ) (queues : ℕ → List J) : Type 0 where
    pub threads : p.num_threads ≡ n
    pub some_thread : 0 < n
    pub turn : p.cursor ≡ k % n
    pub queued : (w : ℕ) → w < n → Queue p spare w (queues w)

  -- One job more.
  abbrev pub give : ℕ → ℕ → J → (ℕ → List J) → ℕ → List J
  give n k job queues w = if k % n == w then queues w ++ job ∷ [] else queues w

  execute_lem :
      (p : Pool J) (n k spare : ℕ) (queues : ℕ → List J) (job : J)
      → Serving p n k (suc spare) queues
      → (p' : Pool J) × (execute job p ≡ returned tt p')
        × Serving p' n (suc k) spare (give n k job queues)
  unfolding execute get_and_update_index
  execute_lem p n k spare queues job v =
      let i = k % n in
      let (ch, found, alive, holds, room) = v.queued i (mod-lt k v.some_thread) in
      let ch' = record ch { queue = ch.queue ++ job ∷ [] } in
      let taken : Mpsc.send ch job ≡ sent ch' = ground (arith, ap length holds) in
      let some_thread : (p.num_threads == 0) ≡ false = ground (arith, v.threads, v.some_thread) in
      let found' : get_elem? p.senders p.cursor ≡ some ch = rw v.turn found in
      let next : (p.cursor + 1) % p.num_threads ≡ suc k % n =
        rw (v.turn, v.threads) (ap (λ x. x % n) (omega arith) ∙ sym (suc-mod k n)) in
      (
        record p { cursor = (p.cursor + 1) % p.num_threads; senders = set p.senders p.cursor ch' },
        rw (some_thread) (rw (found') (rw (taken, sent_to))),
        record {
          threads = v.threads;
          some_thread = v.some_thread;
          turn = next;
          queued = λ w below. elim (Bool-cases (i == w)) [
            | inl same ↦
                let e : w ≡ i = ground arith in
                (
                  ch',
                  rw (v.turn, e) (get_elem?-set_self p.senders i ch' found),
                  alive,
                  rw (same, holds, e),
                  rw (same, e) (omega (arith, room, length-append (queues i) (job ∷ []))),
                )
            | inr other ↦
                let (c, at_w, live, q, spare_w) = v.queued w below in
                (
                  c,
                  rw v.turn (get_elem?-set_ne p.senders i w ch' (ground arith) ∙ at_w),
                  live,
                  rw other q,
                  rw other (omega (arith, spare_w)),
                )
          ];
        },
      )

  -- Several jobs more.
  give_all : ℕ → ℕ → List J → (ℕ → List J) → ℕ → List J
  unfolding share
  give_all n k jobs queues w = queues w ++ share n w k jobs

  give_all-cons :
      (n k w : ℕ) (job : J) (jobs : List J) (queues : ℕ → List J)
      → give_all n (suc k) jobs (give n k job queues) w ≡ give_all n k (job ∷ jobs) queues w
  unfolding give_all
  give_all-cons n k w job jobs queues = elim (Bool-cases (k % n == w)) [
    | inl same ↦ rw same (append_assoc (queues w) (job ∷ []) (share n w (suc k) jobs))
    | inr other ↦ rw other refl
  ]

  Serving-eq :
      {p : Pool J} {n k k' spare : ℕ} {queues queues' : ℕ → List J}
      → k ≡ k'
      → ((w : ℕ) → queues w ≡ queues' w)
      → Serving p n k spare queues
      → Serving p n k' spare queues'
  Serving-eq e same v = record {
    threads = v.threads;
    some_thread = v.some_thread;
    turn = rw (← e) v.turn;
    queued = λ w below. rw (← same w) (v.queued w below);
  }

  -- Jobs that find room are all accepted, and job number `k` of the pool's life goes to thread
  -- `k % n`: each thread has in its queue what it had, then its share in order.
  pub execute_all_lem :
      (jobs : List J) (p : Pool J) (n k : ℕ) (queues : ℕ → List J)
      → Serving p n k (length jobs) queues
      → (p' : Pool J) × (execute_all jobs p ≡ returned tt p')
        × Serving p' n (k + length jobs) 0 (λ w. queues w ++ share n w k jobs)
  unfolding execute_all give_all
  execute_all_lem [] p n k queues v =
      (p, refl, Serving-eq (omega arith) (λ w. sym (append-nil (queues w))) v)
  execute_all_lem (job ∷ jobs) p n k queues v =
      let (p₁, e, v₁) = execute_lem p n k (length jobs) queues job v in
      let (p', e', v') = execute_all_lem jobs p₁ n (suc k) (give n k job queues) v₁ in
      (
        p',
        rw (e, effects) e',
        Serving-eq (omega arith) (λ w. give_all-cons n k w job jobs queues) v',
      )
