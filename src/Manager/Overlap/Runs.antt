-- ===== src/Manager/Overlap/Runs.antt =====
-- Runs of several threads that call src/task/manager.rs at once, from the manager that
-- `RuntimeBuilder::build` of src/runtime.rs leaves.
use min_async_runtime.Base.{
  ℕ, ◌+◌, ◌<◌, ◌≡◌, ◌⊎◌, refl, sym, ◌∙◌, inl, inr, Bool, [], none, some, get_elem?, returned,
  panicked, arith,
}
use min_async_runtime.Ring
use min_async_runtime.Manager.{Manager, insert, create, max_waiting}
use min_async_runtime.Manager.Board.{Board}
use min_async_runtime.Manager.System.{Inv, boot}
use min_async_runtime.Manager.Boot.{idle_system}
use min_async_runtime.Manager.Invariant.{returned-injective}
use min_async_runtime.Manager.Accounts.{mailed-insert, polling-insert, polling-clear}
use min_async_runtime.Manager.Overlap.{
  Call, registers, stores, is_ready, call_step, Threads, Turn, hands, goes_on, unwinds, receives,
  asks, Turns, start, then_turn,
}
use min_async_runtime.Manager.Overlap.Places.{sum_calls-append, Placed}
use min_async_runtime.Manager.Overlap.Conserved.{carries, stock, drops}
use min_async_runtime.Manager.Delivery.{boot-under_way}
use min_async_runtime.Manager.Overlap.Kept.{
  call_cases, goes_on_lem, unwinds_lem, hands_lem, asks_lem, receives_lem, polling_below,
  channel_below,
}

-- The tasks that a step hands over, and those whose poll it ends, by weight.
abbrev pub handed : {s u : Threads} → Turn s u → (ℕ → ℕ) → ℕ
handed (hands t) w = w t
handed (goes_on aborted i c c' m more found e) w = 0
handed (unwinds aborted i c m found e) w = 0
handed (receives e t ch q free found head) w = 0
handed (asks e t polling) w = 0

abbrev pub ended : {s u : Threads} → Turn s u → (ℕ → ℕ) → ℕ
ended (hands t) w = 0
ended (goes_on aborted i c c' m more found e) w = 0
ended (unwinds aborted i c m found e) w = 0
ended (receives e t ch q free found head) w = 0
ended (asks e t polling) w = w t

-- The tasks that a step drops: as they have been aborted, or as the call panics.
abbrev pub dropped : {s u : Threads} → Turn s u → (ℕ → ℕ) → ℕ
dropped (hands t) w = 0
dropped (goes_on aborted i c c' m more found e) w = drops aborted c w
dropped (unwinds aborted i c m found e) w = carries w c
dropped (receives e t ch q free found head) w = 0
dropped (asks e t polling) w = 0

-- In a whole run.
abbrev pub all_handed : {s u : Threads} → Turns s u → (ℕ → ℕ) → ℕ
all_handed start w = 0
all_handed (then_turn r turn) w = all_handed r w + handed turn w

abbrev pub all_ended : {s u : Threads} → Turns s u → (ℕ → ℕ) → ℕ
all_ended start w = 0
all_ended (then_turn r turn) w = all_ended r w + ended turn w

abbrev pub all_dropped : {s u : Threads} → Turns s u → (ℕ → ℕ) → ℕ
all_dropped start w = 0
all_dropped (then_turn r turn) w = all_dropped r w + dropped turn w

module _ {n cap : ℕ} (small : n < cap) where
  Turn-Placed :
      {s u : Threads} {b : Board} (turn : Turn s u)
      → Placed n cap s b
      → (b' : Board) × Placed n cap u b'
        × ((w : ℕ → ℕ)
            → stock n w u b' + ended turn w + dropped turn w ≡ stock n w s b + handed turn w)
  Turn-Placed {s} {b} (hands t) v = (
    b,
    hands_lem small v t,
    λ w. omega (arith, sum_calls-append (carries w) s.calls (registers t)),
  )
  Turn-Placed (goes_on aborted i c c' m more found e) v =
      let (b', v', kept) = goes_on_lem small v aborted i c c' m found e in
      (b', v', λ w. omega (arith, kept w))
  Turn-Placed {b} (unwinds aborted i c m found e) v =
      let (v', kept) = unwinds_lem small v aborted i c m found e in
      (b, v', λ w. omega (arith, kept w))
  Turn-Placed {s} {b} (receives e t ch q free found head) v =
      let there : b.mail e ≡ some ch = rw v.shown.mailed at found in
      let below = channel_below small v e ch there in
      (
        record b { mail = insert b.mail e (record ch { queue = q }) },
        receives_lem small v e t ch q free there head,
        λ w. omega (
          arith,
          mailed-insert n w e t b.mail ch q below there head,
          polling-insert n w e t s.running below free,
        ),
      )
  Turn-Placed {s} {b} (asks e t polls) v = (
    b,
    asks_lem small v e t polls,
    λ w. omega (
      arith,
      polling-clear n w e t s.running (polling_below small v e t polls) polls,
      sum_calls-append (carries w) s.calls (is_ready e),
    ),
  )

  pub Turns-Placed :
      {s u : Threads} {b : Board} (r : Turns s u)
      → Placed n cap s b
      → (b' : Board) × Placed n cap u b'
        × ((w : ℕ → ℕ)
            → stock n w u b' + all_ended r w + all_dropped r w ≡ stock n w s b + all_handed r w)
  Turns-Placed {b} start v = (b, v, λ w. omega arith)
  Turns-Placed (then_turn r turn) v =
      let (b₁, v₁, kept₁) = Turns-Placed r v in
      let (b₂, v₂, kept₂) = Turn-Placed turn v₁ in (b₂, v₂, λ w. omega (arith, kept₁ w, kept₂ w))

-- The manager when `build` has registered the executors, before anybody calls it.
abbrev pub all_idle : Manager → Threads
all_idle m = record { manager = m; running = λ _. none; calls = [] }

pub boot-all_idle :
    (n : ℕ) (m : Manager)
    → n < max_waiting
    → boot n 0 create ≡ returned tt m
    → (b : Board) × Placed n max_waiting (all_idle m) b
      × ((w : ℕ → ℕ) → stock n w (all_idle m) b ≡ 0)
boot-all_idle n m small booted =
    let (m₁, p, b, v₁, nothing) = boot-under_way n small in
    let same : m₁ ≡ m = returned-injective (sym p ∙ booted) in
    let v : Inv n max_waiting (idle_system m) b = rw same at v₁ in
    (
      b,
      record {
        shown = v.shown;
        seated = λ e below.
            let (ch, there, alive, bound, once) = v.seated e below refl in
            (ch, there, alive, bound, omega arith);
        others = λ e above.
            let (not_idle, free, missing) = v.others e above in (not_idle, refl, missing, refl);
      },
      λ w. omega (arith, nothing w),
    )

module _ (n : ℕ) (m : Manager) (u : Threads) (r : Turns (all_idle m) u) (small : n < max_waiting)
    (booted : boot n 0 create ≡ returned tt m) where
  -- After the registration loop of `build`, for fewer than `max_waiting` workers, however the calls
  -- of the manager by spawning and waking threads and by executors are interleaved between their
  -- uses of the two ring buffers and of the channels, while the executors receive and poll, as long
  -- as no two uses of one ring buffer overlap, each `push` and each `pop` being one step: each
  -- worker has a live channel and is in exactly one place, idle, named in its one message, polling,
  -- or with one call; the two ring buffers are well-formed; and, with any weights on the tasks, so
  -- also for a single task and for all, what was handed over is what waits, is in a mailbox, is
  -- polled or is with a call, what has been polled, and what was dropped, by a call that found the
  -- task aborted or that panicked. No such interleaving loses a task or repeats one.
  pub boot-Placed :
      (w : ℕ → ℕ)
      → (b : Board) × Placed n max_waiting u b
        × (stock n w u b + all_ended r w + all_dropped r w ≡ all_handed r w)
  boot-Placed w =
      let (b₀, v₀, nothing) = boot-all_idle n m small booted in
      let (b, v, kept) = Turns-Placed small r v₀ in (b, v, omega (arith, nothing w, kept w))

  -- After the registration loop of `build`, for fewer than `max_waiting` workers, in a run in which
  -- the calls of the manager are interleaved between their uses of the two ring buffers and of the
  -- channels, and in which no two uses of one ring buffer overlap, each `push` and each `pop` being
  -- one step: every call can go on at any point, its next step returns. The one exception is a call
  -- that is to store its task while the queue of tasks is full: it panics, and leaves the manager as
  -- it was. In such a run no step waits, and no executor's call panics.
  pub boot-calls_go :
      (aborted : ℕ → Bool) (i : ℕ) (c : Call)
      → get_elem? u.calls i ≡ some c
      → ((c' : Call) × (m' : Manager) × (call_step aborted c u.manager ≡ returned c' m'))
        ⊎ ((t : ℕ) × (c ≡ stores t)
            × (Ring.len u.manager.waiting_tasks ≡ max_waiting)
            × (call_step aborted c u.manager ≡ panicked u.manager))
  boot-calls_go aborted i c found =
      let (b₀, v₀, _) = boot-all_idle n m small booted in
      let (b, v, _) = Turns-Placed small r v₀ in
      elim (call_cases small v aborted i c found) [
        | inl g ↦ inl (g.next, g.manager, g.returns)
        | inr (t, at, full, p) ↦ inr (t, at, omega (arith, full, v.shown.tasks_held.counted), p)
      ]
