-- ===== src/Runtime/Workers.antt =====
-- src/runtime.rs: the workers of a runtime, and what they find when a task is handed over.
use min_async_runtime.Base.{
  ℕ, Option, none, some, ◌∙◌, ◌<◌, ◌≤◌, ◌≡◌, ◌≢◌, refl, sym, ap, Bool, false, List, [], ◌∷◌, ◌++◌,
  length, count, length_of_distinct, leb, Bool-cases, inl, inr, returned, arith, subst,
}
use min_async_runtime.Mpsc.{Mpsc}
use min_async_runtime.Manager.{
  Manager, ExecutorTask, run_task, max_waiting, register_or_execute_non_blocking_task,
}
use min_async_runtime.Manager.System.{Inv}
use min_async_runtime.Manager.Board.{Board, Shows, CanReceive, post, after_submit}
use min_async_runtime.Manager.Refine.{board, register_or_execute_lem}
use min_async_runtime.Manager.Seats.{post_self}
use min_async_runtime.Manager.Invariant.{returned-injective}
use min_async_runtime.Manager.Boot.{idle_system, AllIdle, boot_lem}
use min_async_runtime.Executor.{Host}
use min_async_runtime.Runtime.{Runtime, Thread, build}
use min_async_runtime.Runtime.Guard.{build_lem}
use min_async_runtime.Executor.Drive.{
  Mail, turned, count-turned, Handed, Ready, Ready-post, Vacant, Vacant-CanReceive, Shows-mail,
}

nil_of_length : (q : List ExecutorTask) → length q ≡ 0 → q ≡ []
nil_of_length [] e = refl
nil_of_length (msg ∷ q) e = absurd (omega arith)

-- Every worker occurs in `order`, once, and nobody else.
abbrev pub Covers : ℕ → List ℕ → Type 0
Covers n order = ((e : ℕ) → e < n → count e order ≡ 1) × ((e : ℕ) → n ≤ e → count e order ≡ 0)

pub Covers-turned : (n k : ℕ) (order : List ℕ) → Covers n order → Covers n (turned k order)
Covers-turned n k order (within, above) = (
  λ e below. count-turned k e order ∙ within e below,
  λ e beyond. count-turned k e order ∙ above e beyond,
)

module _ (n : ℕ) (m : Manager) (b : Board) (v : Inv n max_waiting (idle_system m) b)
    (quiet : AllIdle n b) where
  idle-Covers : Covers n b.idle
  idle-Covers = (quiet.1, λ e above. (v.others e above).0)

  idle_once : (e : ℕ) → count e b.idle ≤ 1
  idle_once e = elim (Bool-cases (leb n e)) [
    | inl above ↦ ground (arith, (v.others e (ground arith)).0)
    | inr below ↦ ground (arith, quiet.1 e (ground arith))
  ]

  idle-Vacant : (e : ℕ) → count e b.idle ≢ 0 → Vacant b.mail e
  idle-Vacant e held = elim (Bool-cases (leb n e)) [
    | inl above ↦ absurd (held ((v.others e (ground arith)).0))
    | inr below ↦
        let within : e < n = ground arith in
        let (ch, found, alive, bound, once) = v.seated e within refl in
        (
          ch,
          found,
          nil_of_length ch.queue (omega (arith, once, quiet.1 e within)),
          alive,
          omega (arith, bound),
        )
  ]

  idle-Ready : Ready b.mail b.idle
  idle-Ready e = (idle_once e, idle-Vacant e)

-- A live task, handed over while the executors `id ∷ es` are idle.
handed_first :
    {F : Type 0} (aborted : ℕ → Bool) (task id : ℕ) (es : List ℕ) (h : Host F) (m : Manager)
    (mail : ℕ → Option (Mpsc ExecutorTask))
    → Shows m max_waiting (board [] (id ∷ es) mail)
    → Ready mail (id ∷ es)
    → length (id ∷ es) < max_waiting
    → aborted task ≡ false
    → (m' : Manager) × (register_or_execute_non_blocking_task aborted task m ≡ returned tt m')
      × Handed (record h { manager = m' }) max_waiting task (id ∷ es)
handed_first aborted task id es h m mail shown idle fits live =
    let (ch, found, empty, alive, room) = (idle id).1 (ground arith) in
    let can : CanReceive mail id = Vacant-CanReceive mail id ((idle id).1 (ground arith)) in
    let (m', p, shown') =
      register_or_execute_lem aborted m max_waiting (board [] (id ∷ es) mail) shown task
        (λ _ none_idle. absurd (cc))
        (λ e es' first. let who : id ≡ e = cc in subst (CanReceive mail) who can) in
    let posted : Shows m' max_waiting (board [] es (post mail id task)) =
      rw (live, after_submit) at shown' in
    (
      m',
      p,
      record {
        shown = Shows-mail m' max_waiting es (post mail id task) posted;
        ch = record ch { queue = ch.queue ++ run_task task ∷ [] };
        found = ap (λ mail. mail id) posted.mailed ∙ post_self mail id task ch found;
        queued = ap (λ q. q ++ run_task task ∷ []) empty;
        alive = alive;
        room = room;
        seat = ground (arith, (idle id).0);
        idle = subst (λ mail. Ready mail es) (sym posted.mailed) (Ready-post mail id task es idle);
        space = omega (arith, fits);
        some_space = omega arith;
      },
    )

-- All of the `n` workers are idle, nothing is in their mailboxes, and no task waits.
abbrev pub Rests : ℕ → Manager → Type 0
Rests n m =
    (order : List ℕ) × Covers n order
    × Shows m max_waiting (board [] order m.executors)
    × Ready m.executors order
    × (length order < max_waiting)

pub boot-Rests :
    (n : ℕ) (m : Manager) (b : Board)
    → n < max_waiting
    → Inv n max_waiting (idle_system m) b
    → AllIdle n b
    → Rests n m
boot-Rests n m b few v quiet =
    let all = idle-Covers n m b v quiet in
    let shown : Shows m max_waiting (board [] b.idle b.mail) = rw quiet.0 at v.shown in
    (
      b.idle,
      all,
      Shows-mail m max_waiting b.idle b.mail shown,
      subst (λ mail. Ready mail b.idle) (sym v.shown.mailed) (idle-Ready n m b v quiet),
      omega (arith, few, length_of_distinct n b.idle (idle_once n m b v quiet) all.1),
    )

-- The runtime that `build` returns, with its workers.
pub build-Rests :
    {J : Type 0} (n : ℕ) (t : Thread J)
    → n < max_waiting
    → t.guard ≡ false
    → t.runtime ≡ none
    → t.manager ≡ none
    → (rt : Runtime) × (t₁ : Thread J) × (m : Manager) × (build (record { num_workers = n }) t
        ≡ returned rt t₁)
      × (t₁.runtime ≡ some rt)
      × (t₁.manager ≡ some m)
      × Rests n m
build-Rests n t few free vacant unmanaged =
    let (t₁, m, built, _, has_runtime, managed, booted, _, _) =
      build_lem n t few free vacant unmanaged in
    let (m₁, p, b, v, quiet) = boot_lem n few in
    let same : m₁ ≡ m = returned-injective (sym p ∙ booted) in
    (_, t₁, m, built, has_runtime, managed, boot-Rests n m b few (rw same at v) quiet)

pub Mail-Rests :
    {F : Type 0} (n id : ℕ) (h : Host F) (idle : List ℕ)
    → Covers n idle
    → Mail h id max_waiting idle []
    → Rests n h.manager
Mail-Rests n id h idle all v = (idle, all, v.shown, v.idle, omega (arith, v.space))

-- What the workers find when a live task has been handed over: the worker that is the first in the
-- order has it, and the others are idle.
pub handed :
    {F : Type 0} (n : ℕ) (aborted : ℕ → Bool) (task : ℕ) (h : Host F) (m : Manager)
    → 0 < n
    → Rests n m
    → aborted task ≡ false
    → (order : List ℕ) × (m' : Manager) × Covers n order
      × (register_or_execute_non_blocking_task aborted task m ≡ returned tt m')
      × Handed (record h { manager = m' }) max_waiting task order
handed n aborted task h m some_worker ([], all, shown, ready, fits) live =
    absurd (omega (arith, all.0 0 some_worker))
handed n aborted task h m some_worker (id ∷ es, all, shown, ready, fits) live =
    let (m', p, mail) = handed_first aborted task id es h m m.executors shown ready fits live in
    (id ∷ es, m', all, p, mail)
