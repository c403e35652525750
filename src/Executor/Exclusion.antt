-- ===== src/Executor/Exclusion.antt =====
-- src/executor.rs `forward_task`: of the executors that have one task, one polls it at a time.
use min_async_runtime.Base.{
  ℕ, true, ◌≡◌, ◌≢◌, refl, sym, ap, ==_refl, ◌∙◌, inl, inr, ◌⊎◌, Option, none, some, ◌==◌,
  Bool-cases, arith,
}
use min_async_runtime.Manager.{insert}
use min_async_runtime.Manager.System.{
  System, Step, submit, refuse, receive, finish, ends, clear, Reach, here as here_base,
  next as next_base,
}
use min_async_runtime.Executor.Lock.{
  Point, receiving, wants, polls, polled, Locked, LockStep, hands, takes, locks, unlocks, asks,
  is_handover, LockReach, here, next, move_to, task_at, unlocked,
}

-- Points, tasks and mutexes agree: a mutex is held by the executor that polls its task.
pub record LockInv (s : Locked) : Type 0 where
  pub agree : (e : ℕ) → s.base.running e ≡ task_at (s.point e)
  pub held : (t e : ℕ) → s.holder t ≡ some e → s.point e ≡ polls t
  pub holds : (t e : ℕ) → s.point e ≡ polls t → s.holder t ≡ some e

hands-running : {s u : System} (step : Step s u) → is_handover step ≡ true → u.running ≡ s.running
hands-running (submit aborted t m h) other = refl
hands-running (refuse aborted t m h) other = refl
hands-running (receive e t ch q free found head) other = absurd (cc (other))
hands-running (finish aborted e t m polling h) other = absurd (cc (other))
hands-running (ends e t ch polling found) other = absurd (cc (other))

pub idle_point : (p : Point) → task_at p ≡ none → p ≡ receiving
idle_point receiving e = refl
idle_point (wants t) e = absurd (cc)
idle_point (polls t) e = absurd (cc)
idle_point (polled t) e = absurd (cc)

some-injective : {t u : ℕ} → some t ≡ some u → t ≡ u
some-injective e = cc

pub task_at-cases :
    (p : Point) (t : ℕ) → task_at p ≡ some t → (p ≡ wants t) ⊎ ((p ≡ polls t) ⊎ (p ≡ polled t))
task_at-cases receiving t e = absurd (cc)
task_at-cases (wants u) t e = inl (ap wants (some-injective e))
task_at-cases (polls u) t e = inr (inl (ap polls (some-injective e)))
task_at-cases (polled u) t e = inr (inr (ap polled (some-injective e)))

polls-injective : {t u : ℕ} → polls t ≡ polls u → t ≡ u
polls-injective e = cc

module _ (f : ℕ → Point) (holder : ℕ → Option ℕ) (e₀ : ℕ) (p : Point)
    (held : (t e : ℕ) → holder t ≡ some e → f e ≡ polls t)
    (holds : (t e : ℕ) → f e ≡ polls t → holder t ≡ some e) where
  -- Executor `e₀` moves between two points at which it holds no mutex.
  held_elsewhere :
      ((t : ℕ) → f e₀ ≢ polls t) → (t e : ℕ) → holder t ≡ some e → move_to f e₀ p e ≡ polls t
  held_elsewhere before t e h = elim (Bool-cases (e == e₀)) [
    | inl same ↦
        let here_now : e ≡ e₀ = ground arith in absurd (before t (ap f (sym here_now) ∙ held t e h))
    | inr other ↦ rw other (held t e h)
  ]

  holds_elsewhere :
      ((t : ℕ) → p ≢ polls t) → (t e : ℕ) → move_to f e₀ p e ≡ polls t → holder t ≡ some e
  holds_elsewhere after t e h = elim (Bool-cases (e == e₀)) [
    | inl same ↦ absurd (after t (rw same at h))
    | inr other ↦ holds t e (rw other at h)
  ]

  -- Executor `e₀` gets the mutex of `t₀`, which nobody holds.
  held_locked :
      (t₀ : ℕ)
      → p ≡ polls t₀
      → ((t : ℕ) → f e₀ ≢ polls t)
      → (t e : ℕ) → insert holder t₀ e₀ t ≡ some e
      → move_to f e₀ p e ≡ polls t
  held_locked t₀ polling before t e h = elim (Bool-cases (t == t₀)) [
    | inl same ↦
        let it : t ≡ t₀ = ground arith in
        let who : e ≡ e₀ = some-injective (sym (rw same at h)) in rw (who, it, ==_refl e₀) polling
    | inr other ↦ held_elsewhere before t e (rw other at h)
  ]

  holds_locked :
      (t₀ : ℕ)
      → p ≡ polls t₀
      → holder t₀ ≡ none
      → (t e : ℕ) → move_to f e₀ p e ≡ polls t
      → insert holder t₀ e₀ t ≡ some e
  holds_locked t₀ polling vacant t e h = elim (Bool-cases (e == e₀)) [
    | inl same ↦
        let it : t ≡ t₀ = polls-injective (sym (rw same at h) ∙ polling) in
        let who : e ≡ e₀ = ground arith in rw (it, who, ==_refl t₀) refl
    | inr other ↦
        let old : holder t ≡ some e = holds t e (rw other at h) in
        elim (Bool-cases (t == t₀)) [
          | inl same ↦ let it : t ≡ t₀ = ground arith in absurd (cc (ap holder it, old, vacant))
          | inr apart ↦ rw apart old
        ]
  ]

  -- Executor `e₀` gives up the mutex of `t₀`.
  held_unlocked :
      (t₀ : ℕ)
      → f e₀ ≡ polls t₀
      → (t e : ℕ) → clear holder t₀ t ≡ some e
      → move_to f e₀ p e ≡ polls t
  held_unlocked t₀ polling t e h = elim (Bool-cases (t == t₀)) [
    | inl same ↦ absurd (cc (rw same at h))
    | inr other ↦
        let old : f e ≡ polls t = held t e (rw other at h) in
        elim (Bool-cases (e == e₀)) [
          | inl same ↦
              let who : e ≡ e₀ = ground arith in
              let it : t ≡ t₀ = polls-injective (sym old ∙ ap f who ∙ polling) in
              absurd (ground arith)
          | inr apart ↦ rw apart old
        ]
  ]

  holds_unlocked :
      (t₀ : ℕ)
      → f e₀ ≡ polls t₀
      → ((t : ℕ) → p ≢ polls t)
      → (t e : ℕ) → move_to f e₀ p e ≡ polls t
      → clear holder t₀ t ≡ some e
  holds_unlocked t₀ polling after t e h = elim (Bool-cases (e == e₀)) [
    | inl same ↦ absurd (after t (rw same at h))
    | inr other ↦
        let old : holder t ≡ some e = holds t e (rw other at h) in
        elim (Bool-cases (t == t₀)) [
          | inl same ↦
              let it : t ≡ t₀ = ground arith in
              let who : e ≡ e₀ = some-injective (sym old ∙ ap holder it ∙ holds t₀ e₀ polling) in
              absurd (ground arith)
          | inr apart ↦ rw apart old
        ]
  ]

agree_moved :
    (running : ℕ → Option ℕ) (f : ℕ → Point) (e₀ : ℕ) (p : Point) (running' : ℕ → Option ℕ)
    → ((e : ℕ) → running e ≡ task_at (f e))
    → running' e₀ ≡ task_at p
    → ((e : ℕ) → e ≢ e₀ → running' e ≡ running e)
    → (e : ℕ) → running' e ≡ task_at (move_to f e₀ p e)
agree_moved running f e₀ p running' agree here_now there e = elim (Bool-cases (e == e₀)) [
  | inl same ↦ let who : e ≡ e₀ = ground arith in rw same (ap running' who ∙ here_now)
  | inr other ↦ rw other (there e (ground arith) ∙ agree e)
]

pub LockStep-LockInv : {s u : Locked} → LockStep s u → LockInv s → LockInv u
LockStep-LockInv (hands b step other) v = record {
  agree = rw (hands-running step other) v.agree;
  held = v.held;
  holds = v.holds;
}
LockStep-LockInv {s} (takes e₀ t₀ ch q free found head) v =
    let at_rest : s.point e₀ ≡ receiving = idle_point (s.point e₀) (sym (v.agree e₀) ∙ free) in
    record {
      agree =
          agree_moved s.base.running s.point e₀ (wants t₀) (insert s.base.running e₀ t₀) v.agree
            (rw (==_refl e₀) refl) (λ e ne. ground arith);
      held = held_elsewhere s.point s.holder e₀ (wants t₀) v.held v.holds (λ t h. cc);
      holds = holds_elsewhere s.point s.holder e₀ (wants t₀) v.held v.holds (λ t h. cc);
    }
LockStep-LockInv {s} (locks e₀ t₀ wanting vacant) v = record {
  agree =
      agree_moved s.base.running s.point e₀ (polls t₀) s.base.running v.agree
        (v.agree e₀ ∙ ap task_at wanting) (λ e ne. refl);
  held = held_locked s.point s.holder e₀ (polls t₀) v.held v.holds t₀ refl (λ t h. cc);
  holds = holds_locked s.point s.holder e₀ (polls t₀) v.held v.holds t₀ refl vacant;
}
LockStep-LockInv {s} (unlocks e₀ t₀ polling) v = record {
  agree =
      agree_moved s.base.running s.point e₀ (polled t₀) s.base.running v.agree
        (v.agree e₀ ∙ ap task_at polling) (λ e ne. refl);
  held = held_unlocked s.point s.holder e₀ (polled t₀) v.held v.holds t₀ polling;
  holds = holds_unlocked s.point s.holder e₀ (polled t₀) v.held v.holds t₀ polling (λ t h. cc);
}
LockStep-LockInv {s} (asks aborted e₀ t₀ m done running h) v = record {
  agree =
      agree_moved s.base.running s.point e₀ receiving (clear s.base.running e₀) v.agree
        (rw (==_refl e₀) refl) (λ e ne. ground arith);
  held = held_elsewhere s.point s.holder e₀ receiving v.held v.holds (λ t h. cc);
  holds = holds_elsewhere s.point s.holder e₀ receiving v.held v.holds (λ t h. cc);
}

pub unlocked-LockInv : (s : System) → ((e : ℕ) → s.running e ≡ none) → LockInv (unlocked s)
unlocked-LockInv s free = record {
  agree = free;
  held = λ t e h. absurd (cc);
  holds = λ t e h. absurd (cc);
}

pub LockReach-LockInv : {s u : Locked} → LockReach s u → LockInv s → LockInv u
LockReach-LockInv here v = v
LockReach-LockInv (next r step) v = LockStep-LockInv step (LockReach-LockInv r v)

-- Without the mutexes it is a run of `Manager.System`.
pub LockReach-Reach : {s u : Locked} → LockReach s u → Reach s.base u.base
LockReach-Reach here = here_base
LockReach-Reach (next r (hands b step other)) = next_base (LockReach-Reach r) step
LockReach-Reach (next r (takes e t ch q free found head)) =
    next_base (LockReach-Reach r) (receive e t ch q free found head)
LockReach-Reach (next r (locks e t wanting vacant)) = LockReach-Reach r
LockReach-Reach (next r (unlocks e t polling)) = LockReach-Reach r
LockReach-Reach (next r (asks aborted e t m done running h)) =
    next_base (LockReach-Reach r) (finish aborted e t m running h)

-- From a system in which no executor has a task, in any run of spawns, wakes, receptions, locks,
-- polls that do not panic, and requests for more, no two of which call the manager at once: two executors never poll the same task at once,
-- however many have been given it; and as long as one polls a task, the others that have it wait for
-- its mutex or have done with it.
pub polls_once :
    (s : System) (u : Locked) (t e e' : ℕ)
    → ((i : ℕ) → s.running i ≡ none)
    → LockReach (unlocked s) u
    → u.point e ≡ polls t
    → u.base.running e' ≡ some t
    → (e ≡ e') ⊎ ((u.point e' ≡ wants t) ⊎ (u.point e' ≡ polled t))
polls_once s u t e e' free r polling has =
    let v = LockReach-LockInv r (unlocked-LockInv s free) in
    elim (task_at-cases (u.point e') t (sym (v.agree e') ∙ has)) [
      | inl wanting ↦ inr (inl wanting)
      | inr (inl both) ↦ inl (some-injective (sym (v.holds t e polling) ∙ v.holds t e' both))
      | inr (inr over) ↦ inr (inr over)
    ]
