-- ===== src/Executor/Unblocked.antt =====
-- src/executor.rs `forward_task`: nobody waits for a mutex for ever.
use min_async_runtime.Base.{
  ℕ, zero, suc, ◌+◌, ◌*◌, ◌≤◌, ◌<◌, ◌≡◌, ◌≢◌, refl, sym, ap, ◌∙◌, inl, inr, Bool, true, false, some,
  ==_refl, Option-cases, total, total-update, returned, arith,
}
use min_async_runtime.Manager.{Manager, executor_ready, create, max_waiting}
use min_async_runtime.Manager.Board.{Board, Shows}
use min_async_runtime.Manager.System.{
  System, Step, submit, refuse, receive, finish, ends, Inv, boot,
}
use min_async_runtime.Manager.Moves.{channel_below, polling_below}
use min_async_runtime.Manager.Invariant.{returned-injective}
use min_async_runtime.Manager.Boot.{idle_system, boot-Reach-Inv}
use min_async_runtime.Manager.Work.{is_service, work_left, Step-work}
use min_async_runtime.Manager.Delivery.{AtRest}
use min_async_runtime.Manager.Drain.{can_step}
use min_async_runtime.Executor.Lock.{
  Point, receiving, wants, polls, polled, Locked, LockStep, hands, takes, locks, unlocks, asks,
  LockReach, here, next, move_to, task_at, unlocked,
}
use min_async_runtime.Executor.Exclusion.{
  LockInv, idle_point, task_at-cases, unlocked-LockInv, LockStep-LockInv, LockReach-LockInv,
  LockReach-Reach,
}

-- A step of an executor.
abbrev pub is_work : {s u : Locked} → LockStep s u → Bool
is_work (hands b step other) = false
is_work (takes e t ch q free found head) = true
is_work (locks e t wanting vacant) = true
is_work (unlocks e t polling) = true
is_work (asks aborted e t m done running h) = true

abbrev pub Works : {s u : Locked} → LockReach s u → Type 0
Works here = Unit
Works (next r step) = Works r × (is_work step ≡ true)

abbrev pub lock_steps : {s u : Locked} → LockReach s u → ℕ
lock_steps here = 0
lock_steps (next r step) = lock_steps r + 1

-- The steps between a point and the next request for a task.
abbrev pub ahead : Point → ℕ
ahead receiving = 0
ahead (wants t) = 2
ahead (polls t) = 1
ahead (polled t) = 0

abbrev pub lock_work : ℕ → Locked → Board → ℕ
lock_work n s b = 3 * work_left n s.base b + total n (λ e. ahead (s.point e))

ahead-move_to :
    (n e : ℕ) (f : ℕ → Point) (p : Point)
    → e < n
    → total n (λ j. ahead (f j)) + ahead p ≡ total n (λ j. ahead (move_to f e p j)) + ahead (f e)
ahead-move_to n e f p below =
    let now : ahead (move_to f e p e) ≡ ahead p = rw (==_refl e) refl in
    omega (
      arith,
      now,
      total-update n e (λ j. ahead (f j)) (λ j. ahead (move_to f e p j)) below
          (λ j ne. ap ahead (elsewhere f e p j ne)),
    )
  where
    elsewhere : (f : ℕ → Point) (e : ℕ) (p : Point) (j : ℕ) → j ≢ e → f j ≡ move_to f e p j
    elsewhere f e p j ne = ground arith

LockStep-work :
    {n cap : ℕ} {s u : Locked} {b : Board} (step : LockStep s u)
    → n < cap
    → Inv n cap s.base b
    → LockInv s
    → is_work step ≡ true
    → (b' : Board) × Inv n cap u.base b' × (lock_work n u b' < lock_work n s b)
LockStep-work (hands b step other) small inv v works = absurd (cc)
LockStep-work {n} {s} {b} (takes e t ch q free found head) small inv v works =
    let (b', inv', less) = Step-work (receive e t ch q free found head) small inv refl in
    let below : e < n = channel_below small inv e ch (rw inv.shown.mailed at found) in
    let at_rest = idle_point (s.point e) (sym (v.agree e) ∙ free) in
    (b', inv', omega (arith, less, ap ahead at_rest, ahead-move_to n e s.point (wants t) below))
LockStep-work {n} {s} {b} (locks e t wanting vacant) small inv v works =
    let below : e < n = polling_below small inv e t (v.agree e ∙ ap task_at wanting) in
    (b, inv, omega (arith, ap ahead wanting, ahead-move_to n e s.point (polls t) below))
LockStep-work {n} {s} {b} (unlocks e t polling) small inv v works =
    let below : e < n = polling_below small inv e t (v.agree e ∙ ap task_at polling) in
    (b, inv, omega (arith, ap ahead polling, ahead-move_to n e s.point (polled t) below))
LockStep-work {n} {s} {b} (asks aborted e t m done running h) small inv v works =
    let (b', inv', less) = Step-work (finish aborted e t m running h) small inv refl in
    let below : e < n = polling_below small inv e t running in
    (b', inv', omega (arith, less, ap ahead done, ahead-move_to n e s.point receiving below))

abbrev LockMove : Locked → Type 0
LockMove s = (u : Locked) × (step : LockStep s u) × (is_work step ≡ true)

-- An executor with a task can go on, or the one that holds the mutex can.
point_moves :
    (s : Locked) (aborted : ℕ → Bool) (e t : ℕ) (m : Manager)
    → LockInv s
    → s.base.running e ≡ some t
    → executor_ready aborted e s.base.manager ≡ returned tt m
    → LockMove s
point_moves s aborted e t m v running h =
    elim (task_at-cases (s.point e) t (sym (v.agree e) ∙ running)) [
      | inl wanting ↦ elim (Option-cases (s.holder t)) [
        | inl vacant ↦ (_, locks e t wanting vacant, refl)
        | inr (e', other) ↦ (_, unlocks e' t (v.held t e' other), refl)
      ]
      | inr (inl polling) ↦ (_, unlocks e t polling, refl)
      | inr (inr over) ↦ (_, asks aborted e t m over running h, refl)
    ]

service_moves :
    {s : Locked} {b : System} (step : Step s.base b)
    → LockInv s
    → is_service step ≡ true
    → LockMove s
service_moves (submit aborted t m h) v service = absurd (cc)
service_moves (refuse aborted t m h) v service = absurd (cc)
service_moves (receive e t ch q free found head) v service =
    (_, takes e t ch q free found head, refl)
service_moves (ends e t ch held found) v service = absurd (cc)
service_moves {s} (finish aborted e t m running h) v service =
    point_moves s aborted e t m v running h

Reach-lock_work :
    {n cap : ℕ} {s u : Locked} {b : Board} (r : LockReach s u)
    → n < cap
    → Inv n cap s.base b
    → LockInv s
    → Works r
    → (b' : Board) × Inv n cap u.base b' × (lock_work n u b' + lock_steps r ≤ lock_work n s b)
Reach-lock_work {b} here small inv v works = (b, inv, omega arith)
Reach-lock_work (next r step) small inv v works =
    let (b₁, inv₁, less₁) = Reach-lock_work r small inv v works.0 in
    let (b₂, inv₂, less₂) = LockStep-work step small inv₁ (LockReach-LockInv r v) works.1 in
    (b₂, inv₂, omega (arith, less₁, less₂))

lock_drain :
    {n cap : ℕ} {s₀ : Locked} (fuel : ℕ) {s : Locked} {b : Board} (r : LockReach s₀ s)
    → n < cap
    → Inv n cap s.base b
    → LockInv s
    → lock_work n s b ≤ fuel
    → Works r
    → (u : Locked) × (r' : LockReach s₀ u) × Works r' × AtRest n u.base
lock_drain {n} zero {s} r small inv v enough works =
    elim (can_step small inv (λ t. false) n (omega arith)) [
      | inl rest ↦ (s, r, works, rest)
      | inr (b, step, serves, spares) ↦
          let (u, move, moves) = service_moves step v serves in
          let (b₁, inv₁, less) = LockStep-work move small inv v moves in
          absurd (omega (arith, less, enough))
    ]
lock_drain {n} (suc fuel) {s} r small inv v enough works =
    elim (can_step small inv (λ t. false) n (omega arith)) [
      | inl rest ↦ (s, r, works, rest)
      | inr (b, step, serves, spares) ↦
          let (u, move, moves) = service_moves step v serves in
          let (b₁, inv₁, less) = LockStep-work move small inv v moves in
          lock_drain fuel (next r move) small inv₁ (LockStep-LockInv move v)
            (omega (arith, less, enough)) (works, moves)
    ]

-- After the registration loop of `build`, for fewer than `max_waiting` workers, at any point of a
-- run in which no two calls of the manager overlap, polls end and do not panic, and executors wait for the mutex of a task that another
-- polls: if from then on only executors receive, lock, poll and ask for more, they make at most
-- `lock_work` steps, and they can go on until every mailbox is empty and nobody has a task. So
-- waiting for each other's mutexes they never come to a stop.
pub mutexes_free :
    (n : ℕ) (m : Manager) (s : Locked)
    → n < max_waiting
    → boot n 0 create ≡ returned tt m
    → LockReach (unlocked (idle_system m)) s
    → (b : Board) × Shows s.base.manager max_waiting b
      × ((u : Locked) (q : LockReach s u) → Works q → lock_steps q ≤ lock_work n s b)
      × (u : Locked) × (q : LockReach s u) × Works q
      × AtRest n u.base
mutexes_free n m s small booted r =
    let (m₁, p, all) = boot-Reach-Inv n small in
    let same : m₁ ≡ m = returned-injective (sym p ∙ booted) in
    let (b, inv) = all s.base (rw same (LockReach-Reach r)) in
    let v = LockReach-LockInv r (unlocked-LockInv (idle_system m) (λ e. refl)) in
    let (u, q, works, rest) = lock_drain (lock_work n s b) here small inv v (omega arith) tt in
    (
      b,
      inv.shown,
      λ u' q' works'.
          let (_, _, less) = Reach-lock_work q' small inv v works' in omega (arith, less),
      u,
      q,
      works,
      rest,
    )
