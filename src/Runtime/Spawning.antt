-- ===== src/Runtime/Spawning.antt =====
-- src/runtime.rs `Handle::spawn` on a runtime with any number of workers, the executors that work for
-- it, and src/spawner.rs `JoinHandle`.
use min_async_runtime.Base.{
  ℕ, zero, suc, ◌<◌, ◌≡◌, refl, ap, ◌∙◌, Bool, false, List, [], ◌∷◌, ◌++◌, Option, none, some,
  ==_refl, returned, arith,
}
use min_async_runtime.Base.Monad.{M, pure, ◌>>=◌, ◌>>◌, on, effects}
use min_async_runtime.Base.Future.{pending, ready, ok}
use min_async_runtime.Ring.Refine.{Holds}
use min_async_runtime.Manager.{Manager, max_waiting}
use min_async_runtime.Executor.{Poll, Host, serve, wake, has_aborted, generate_tag}
use min_async_runtime.Executor.Drive.{Yields, last, yield, Live, Mail, Handed, relay, turned}
use min_async_runtime.Executor.Drive.Relay.{yield_round, last_round}
use min_async_runtime.Reactor.{generate_reactor_tag}
use min_async_runtime.Channel.{Channel, bounded_channel}
use min_async_runtime.Channel.Wake.{reactor_turn}
use min_async_runtime.Spawner
use min_async_runtime.Spawner.{JoinHandle, Site, spawn, prepared, handle_of, with_rx, finish}
use min_async_runtime.Spawner.Join.{Open, finish-joins}
use min_async_runtime.Runtime.{Runtime, Thread, build, handle_spawn}
use min_async_runtime.Runtime.Workers.{
  Covers, Rests, build-Rests, Mail-Rests, Covers-turned, handed,
}
use min_async_runtime.Runtime.Blocking.{output_of, output_now, output_now_lem}

-- The host of the workers, and the handle on the task.
pub record Spawned (F T : Type 0) : Type 0 where
  pub host : Host F
  pub jh : JoinHandle T

-- What the wrapped future does once it has an output.
abbrev pub finish_output : {T : Type 0} → Option T → M (Channel T) (Unit {0})
finish_output none = pure tt
finish_output (some res) = finish res

module _ {F T : Type 0} where
  abbrev pub with_host : Host F → Spawned F T → Spawned F T
  with_host h c = record c { host = h }

  abbrev pub with_channel : Channel T → Spawned F T → Spawned F T
  with_channel rx c = record c { jh = with_rx rx c.jh }

module _ {F T : Type 0} (poll : F → Poll F) (value : F → T) where
  -- A round of executor `id`, with the wrapped future of task `t`.
  unfoldable pub spawned_round : ℕ → ℕ → M (Spawned F T) Bool
  spawned_round id t c =
      (do
        more ← on (λ c'. c'.host) with_host (serve poll id)
        on (λ c'. c'.jh.rx) with_channel (finish_output (output_now poll value id t c.host))
        pure more)
        c

  -- The rounds of the executors, in the order of the list.
  unfoldable pub spawned_rounds : List ℕ → ℕ → M (Spawned F T) (Unit {0})
  spawned_rounds [] t = pure tt
  spawned_rounds (id ∷ ids) t = do spawned_round id t; spawned_rounds ids t

  spawned_rounds_lem :
      (t cap k : ℕ) (order : List ℕ) (end fut : F) (h : Host F) (jh : JoinHandle T) (rx : Channel T)
      → Yields poll t end k fut
      → Handed h cap t order
      → Live h t (some fut)
      → finish (value end) jh.rx ≡ returned tt rx
      → (id : ℕ) × (h' : Host F) × (spawned_rounds
            (relay (suc k) order)
            t
            (record { host = h; jh = jh })
          ≡ returned tt (record { host = h'; jh = with_rx rx jh }))
        × Mail h' id cap (turned (suc k) order) []
        × Live h' t none
  unfolding spawned_rounds spawned_round
  spawned_rounds_lem t cap k [] end fut h jh rx ys v l sends = absurd v
  spawned_rounds_lem t cap zero (id ∷ es) end fut h jh rx (last e) v l sends =
      let (h', p, v', l', _) = last_round poll h id cap t end es v l e in
      let now : output_now poll value id t h ≡ some (value end) =
        output_now_lem poll value id t cap es end h v l
        ∙ ap (λ p. output_of poll value p.polled end) e in
      (id, h', rw (p, effects) (rw (now, effects) (rw (sends, effects) refl)), v', l')
  spawned_rounds_lem t cap (suc k) (id ∷ es) end fut h jh rx (yield {f} e ys) v l sends =
      let (h₁, p, v₁, l₁, _) = yield_round poll h id cap t fut es v l f e in
      let now : output_now poll value id t h ≡ none =
        output_now_lem poll value id t cap es fut h v l
        ∙ ap (λ p. output_of poll value p.polled fut) e in
      let (last_id, h', q, v', l') =
        spawned_rounds_lem t cap k (es ++ id ∷ []) end f h₁ jh rx ys v₁ l₁ sends in
      (last_id, h', rw (p, effects) (rw (now, effects) q), v', l')

module _ {F T : Type 0} where
  -- The new handle's channel.
  new_channel : Site F → Channel T
  new_channel s = (bounded_channel {T = T} 1 s.reactor_tag_num s.reactor).0

  new_handle-Open :
      (arc cap : ℕ) (s : Site F)
      → Holds s.reactor.reactor_tag_buffer cap []
      → 0 < cap
      → Open (handle_of arc (new_channel s)) cap
  unfolding new_channel bounded_channel generate_reactor_tag
  new_handle-Open arc cap s held room = record {
    synced = record {
      counted = refl;
      small = omega arith;
      fits = omega arith;
      cloned = refl;
      few = omega arith;
    };
    held = held;
    room = room;
    alive = refl;
    vacant = refl;
    place = omega arith;
    sender = omega arith;
    unfinished = λ h. cc;
  }

module _ {F T J : Type 0} where
  -- What `Handle::spawn` leaves, on the runtime that `build` has returned.
  handle_spawn_lem :
      (t : Thread J) (n arc : ℕ) (fut : F) (s : Site F)
      → 0 < n
      → n < max_waiting
      → t.guard ≡ false
      → t.runtime ≡ none
      → t.manager ≡ none
      → (rt : Runtime) × (t₁ : Thread J) × (m : Manager) × (order : List ℕ) × (s' : Site F) × (build
            (record { num_workers = n })
            t
          ≡ returned rt t₁)
        × Covers n order
        × (t₁.manager ≡ some m)
        × (handle_spawn t₁.runtime arc fut (record s { host = record s.host { manager = m } })
            ≡ returned (handle_of {T = T} arc (new_channel s)) s')
        × Handed s'.host max_waiting arc order
        × Live s'.host arc (some fut)
  unfolding new_channel spawn wake generate_tag bounded_channel generate_reactor_tag
  handle_spawn_lem t n arc fut s some_worker few free vacant unmanaged =
      let (rt, t₁, m, built, has_runtime, managed, rests) =
        build-Rests n t few free vacant unmanaged in
      let s₀ : Site F = record s { host = record s.host { manager = m } } in
      let (rx, tags) = bounded_channel {T = T} 1 s₀.reactor_tag_num s₀.reactor in
      let s₁ = prepared arc fut tags s₀ in
      let live : has_aborted s₁.host arc ≡ false = rw (==_refl arc, has_aborted) in
      let (order, m', all, accepted, v') =
        handed n (has_aborted s₁.host) arc s₁.host m some_worker rests live in
      (
        rt,
        t₁,
        m,
        order,
        record s₁ { host = record s₁.host { manager = m' } },
        built,
        all,
        managed,
        rw has_runtime (rw (accepted, effects) refl),
        v',
        record {
          state = rw (==_refl arc) refl;
          sound = rw (==_refl arc) refl;
          wanted = rw (==_refl arc) refl;
        },
      )

module _ {F T J : Type 0} (poll : F → Poll F) (value : F → T) where
  -- On a thread that has no runtime and no manager yet, with no tag in the reactor's buffer, which
  -- has room: `build` with `n` workers, at least one and fewer than `max_waiting`, returns, and
  -- `Handle::spawn` returns a handle on the new task. A first poll of the handle is pending. If the
  -- task's future yields `k` times, waking itself once each time, and is then ready, there is an
  -- order in which each worker occurs once, and in which they take turns: `k + 1` rounds of their
  -- loops, each run by the next of them, return, the future has been dropped, and every worker is
  -- idle, with no message, and no task waits. The reactor's next turn wakes the awaiter of the handle and nobody else,
  -- and the handle's next poll is ready with the future's output.
  pub build-handle_spawn :
      (t : Thread J) (n arc k waker cap : ℕ) (end fut : F) (s : Site F)
      → 0 < n
      → n < max_waiting
      → t.guard ≡ false
      → t.runtime ≡ none
      → t.manager ≡ none
      → Holds s.reactor.reactor_tag_buffer cap []
      → 0 < cap
      → Yields poll arc end k fut
      → (rt : Runtime) × (t₁ : Thread J) × (m : Manager) × (jh jh₁ jh₂ : JoinHandle T) × (s' : Site
          F)
        × (order : List ℕ) × (c : Spawned F T) × (rx : Channel T) × (build
              (record { num_workers = n })
              t
            ≡ returned rt t₁)
        × Covers n order
        × (t₁.manager ≡ some m)
        × (handle_spawn t₁.runtime arc fut (record s { host = record s.host { manager = m } })
            ≡ returned jh s')
        × (jh.task ≡ arc)
        × (Spawner.poll waker jh ≡ returned pending jh₁)
        × (spawned_rounds poll value (relay (suc k) order) arc (record { host = s'.host; jh = jh₁ })
            ≡ returned tt c)
        × ((c.host.tasks arc).future ≡ none)
        × Rests n c.host.manager
        × (reactor_turn c.jh.rx ≡ returned (waker ∷ []) rx)
        × (Spawner.poll waker (with_rx rx c.jh) ≡ returned (ready (ok (value end))) jh₂)
  build-handle_spawn t n arc k waker cap end fut s some_worker few free vacant unmanaged held room
        ys =
      let (rt, t₁, m, order, s', built, all, managed, spawns, v, l) =
        handle_spawn_lem t n arc fut s some_worker few free vacant unmanaged in
      let jh = handle_of arc (new_channel s) in
      let (jh₁, jh₂, c₂, c₃, waits, sends, wakes_it, answers, _) =
        finish-joins waker (value end) jh cap (new_handle-Open arc cap s held room) in
      let (id, h', rounds, v', l') =
        spawned_rounds_lem poll value arc max_waiting k order end fut s'.host jh₁ c₂ ys v l sends in
      (
        rt,
        t₁,
        m,
        jh,
        jh₁,
        jh₂,
        s',
        order,
        record { host = h'; jh = with_rx c₂ jh₁ },
        c₃,
        built,
        all,
        managed,
        spawns,
        refl,
        waits,
        rounds,
        l'.state,
        Mail-Rests n id h' (turned (suc k) order) (Covers-turned n (suc k) order all) v',
        wakes_it,
        answers,
      )
