-- ===== src/Runtime/Reports.antt =====
-- src/runtime.rs `run_blocking` of a future that panics, and what the report of the panic does to the
-- call after it.
use min_async_runtime.Base.{
  ℕ, zero, suc, ◌<◌, ◌≡◌, refl, ap, ◌∙◌, false, List, [], ◌∷◌, ◌++◌, none, some, returned, panicked,
  arith,
}
use min_async_runtime.Base.Monad.{effects}
use min_async_runtime.Mpsc.{sync_channel}
use min_async_runtime.Manager.{Manager, max_waiting, register_or_execute_non_blocking_task}
use min_async_runtime.Executor.{pending, panics, Poll, Host}
use min_async_runtime.Executor.Drive.{Yields, Live, Mail, Handed, relay, turned}
use min_async_runtime.Executor.Drive.Relay.{yield_round, panic_round}
use min_async_runtime.Spawner.{place_task, new_task}
use min_async_runtime.Runtime.{Runtime, Thread, build, run_blocking, with_manager}
use min_async_runtime.Runtime.Guard.{run_blocking_lem, run_blocking-lost}
use min_async_runtime.Runtime.Workers.{
  Covers, Covers-turned, Rests, Mail-Rests, build-Rests, handed,
}
use min_async_runtime.Runtime.Blocking.{
  Call, started, Live-started, output_of, output_now, output_now_lem, send_output, blocking_round,
  blocking_rounds, run_blocking-rounds,
}

module _ {F : Type 0} (poll : F → Poll F) where
  -- A future of task `t` that yields `k` times, waking itself each time, and then panics.
  pub data Breaks (t : ℕ) : ℕ → F → Type 0 where
    breaks : {fut : F} → poll fut ≡ record { wakes = []; polled = panics } → Breaks t 0 fut
    yields :
        {k : ℕ} {fut f : F}
        → poll fut ≡ record { wakes = t ∷ []; polled = pending f }
        → Breaks t k f
        → Breaks t (suc k) fut

module _ {F T : Type 0} (poll : F → Poll F) (value : F → T) where
  -- The workers survive the panic, send nothing back, and report it.
  rounds-Breaks :
      (t cap k : ℕ) (order : List ℕ) (fut : F) (c : Call F T)
      → Breaks poll t k fut
      → Handed c.host cap t order
      → Live c.host t (some fut)
      → c.rx ≡ sync_channel 1
      → c.host.panic_tx ≡ sync_channel 1
      → (id : ℕ) × (c' : Call F T) × (blocking_rounds poll value (relay (suc k) order) t c
          ≡ returned tt c')
        × (c'.rx ≡ sync_channel 1)
        × (c'.host.panic_tx ≡ record (sync_channel 1) { queue = tt ∷ [] })
        × Mail c'.host id cap (turned (suc k) order) []
  unfolding blocking_rounds blocking_round
  rounds-Breaks t cap k [] fut c ys v l fresh silent = absurd v
  rounds-Breaks t cap zero (id ∷ es) fut c (breaks e) v l fresh silent =
      let (h', p, v', _, reported) =
        panic_round poll c.host id cap t fut es v l e (ap (λ ch. ch.receiver) silent)
          (rw silent (omega arith)) in
      let now : output_now poll value id t c.host ≡ none =
        output_now_lem poll value id t cap es fut c.host v l
        ∙ ap (λ p. output_of poll value p.polled fut) e in
      (
        id,
        record { host = h'; rx = send_output poll value (output_now poll value id t c.host) c.rx },
        rw (p, effects) refl,
        rw (now, fresh) refl,
        reported ∙ rw silent refl,
        v',
      )
  rounds-Breaks t cap (suc k) (id ∷ es) fut c (yields {f} e ys) v l fresh silent =
      let (h', p, v', l', kept) = yield_round poll c.host id cap t fut es v l f e in
      let now : output_now poll value id t c.host ≡ none =
        output_now_lem poll value id t cap es fut c.host v l
        ∙ ap (λ p. output_of poll value p.polled fut) e in
      let c₁ : Call F T = record {
        host = h';
        rx = send_output poll value (output_now poll value id t c.host) c.rx;
      } in
      let (last_id, c', q, nothing, reported, v₂) =
        rounds-Breaks t cap k (es ++ id ∷ []) f c₁ ys v' l' (rw now fresh) (kept ∙ silent) in
      (last_id, c', rw (p, effects) q, nothing, reported, v₂)

module _ {F T J : Type 0} (poll : F → Poll F) (value : F → T) where
  -- The call of a future that panics, on a thread whose runtime has `n` idle workers.
  run_blocking-Breaks :
      (t : Thread J) (n task tag k : ℕ) (fut : F) (h : Host F) (rt : Runtime)
      → 0 < n
      → t.runtime ≡ some rt
      → t.manager ≡ some h.manager
      → Rests n h.manager
      → h.panic_tx ≡ sync_channel 1
      → Breaks poll task k fut
      → (order : List ℕ) × (m : Manager) × (c : Call F T) × Covers n order
        × (run_blocking {T = T} task none [] t ≡ panicked (with_manager m t))
        × (blocking_rounds poll value (relay (suc k) order) task (started task tag fut m h)
            ≡ returned tt c)
        × (c.rx.queue ≡ [])
        × (c.host.panic_tx ≡ record (sync_channel 1) { queue = tt ∷ [] })
        × Rests n c.host.manager
  run_blocking-Breaks t n task tag k fut h rt some_worker has_runtime managed rests silent ys =
      let h₁ = place_task task (new_task tag fut) h in
      let (order, m, all, accepted, v) =
        handed n (λ t. false) task h₁ h.manager some_worker rests refl in
      let (id, c, q, nothing, reported, v₂) =
        rounds-Breaks poll value task max_waiting k order fut (started task tag fut m h) ys v
          (Live-started T task tag fut m h) refl silent in
      (
        order,
        m,
        c,
        all,
        run_blocking-lost task [] rt h.manager m t has_runtime managed accepted,
        q,
        ap (λ ch. ch.queue) nothing,
        reported,
        Mail-Rests n id c.host (turned (suc k) order) (Covers-turned n (suc k) order all) v₂,
      )

  -- On a thread that has no runtime and no manager yet, with no panic reported: `build` with `n`
  -- workers, at least one and fewer than `max_waiting`, returns. `run_blocking` of a future that
  -- yields `k` times and then panics panics: the workers run it to its end, send nothing back, and
  -- report the panic. If the thread catches that and calls `run_blocking` again, for a future that
  -- yields `j` times and is then ready, the workers send its output back, but the call panics: it
  -- takes the report of the first panic for its own. After that `build` returns the runtime again.
  pub run_blocking-after_panic :
      (t : Thread J) (n task tag k : ℕ) (fut : F) (next next_tag j : ℕ) (next_fut end : F)
      (h : Host F)
      → 0 < n
      → n < max_waiting
      → t.guard ≡ false
      → t.runtime ≡ none
      → t.manager ≡ none
      → h.panic_tx ≡ sync_channel 1
      → Breaks poll task k fut
      → Yields poll next end j next_fut
      → (rt rt' : Runtime) × (t₁ t₂ t₃ : Thread J) × (m m' : Manager) × (order order' : List ℕ) × (c
          c' : Call F T)
        × (build (record { num_workers = n }) t ≡ returned rt t₁)
        × (run_blocking {T = T} task none [] t₁ ≡ panicked (with_manager m t₁))
        × (blocking_rounds poll value (relay (suc k) order) task (started task tag fut m h)
            ≡ returned tt c)
        × (c.rx.queue ≡ [])
        × (register_or_execute_non_blocking_task (λ t. false) next c.host.manager ≡ returned tt m')
        × (blocking_rounds poll value
              (relay (suc j) order')
              next
              (started next next_tag next_fut m' c.host)
            ≡ returned tt c')
        × (c'.rx.queue ≡ value end ∷ [])
        × (run_blocking next
              (some (value end))
              c'.host.panic_tx.queue
              (with_manager c.host.manager t₁)
            ≡ panicked t₂)
        × (build (record { num_workers = n }) t₂ ≡ returned rt' t₃)
  run_blocking-after_panic t n task tag k fut next next_tag j next_fut end h some_worker few free
        vacant unmanaged silent bad good =
      let (rt, t₁, m₀, built, has_runtime, managed, rests) =
        build-Rests n t few free vacant unmanaged in
      let (order, m, c, _, lost, rounds, nothing, reported, rests₁) =
        run_blocking-Breaks t₁ n task tag k fut (record h { manager = m₀ }) rt some_worker
          has_runtime managed rests silent bad in
      let t' = with_manager c.host.manager t₁ in
      let (order', m', c', _, _, rounds', result, _, _, accepted, kept) =
        run_blocking-rounds poll value t' n next next_tag j end next_fut c.host rt some_worker
          has_runtime refl rests₁ good in
      let (t₂, t₃, rt', late, rebuilt, _) =
        (run_blocking_lem next n (value end) rt c.host.manager m' t' has_runtime refl accepted).1 in
      (
        rt,
        rt',
        t₁,
        t₂,
        t₃,
        m,
        m',
        order,
        order',
        c,
        c',
        built,
        lost,
        rounds,
        nothing,
        accepted,
        rounds',
        result,
        rw (ap (λ ch. ch.queue) (kept ∙ reported)) late,
        rebuilt,
      )
