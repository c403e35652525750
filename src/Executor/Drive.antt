-- ===== src/Executor/Drive.antt =====
-- src/executor.rs `run` on any number of executors: a future that yields to the end, and the executors
-- among which its task goes round.
use min_async_runtime.Base.{
  ℕ, zero, suc, ◌<◌, ◌≤◌, ◌≡◌, ◌≢◌, refl, ap, ◌∙◌, Bool, true, false, List, [], ◌∷◌, ◌++◌, Option,
  none, some, ==_refl, ◌==◌, ◌+◌, length, count, count-append, Bool-cases, inl, inr, arith, subst,
}
use min_async_runtime.Mpsc.{Mpsc}
use min_async_runtime.Manager.{Manager, ExecutorTask, run_task, insert}
use min_async_runtime.Manager.Board.{Shows, post, first_live, CanReceive, after_ready, after_submit}
use min_async_runtime.Manager.Refine.{board}
use min_async_runtime.Manager.Seats.{post_self, post_ne}
use min_async_runtime.Executor.{pending, ready, Poll, Host, with_manager, update_task}
pub mod Relay
pub mod Rounds

module _ {F : Type 0} (poll : F → Poll F) where
  -- A future of task `t` that yields `k` times, waking itself each time, and then is ready in the
  -- state `end`.
  pub data Yields (t : ℕ) (end : F) : ℕ → F → Type 0 where
    last : poll end ≡ record { wakes = []; polled = ready } → Yields t end 0 end
    yield :
        {k : ℕ} {fut f : F}
        → poll fut ≡ record { wakes = t ∷ []; polled = pending f }
        → Yields t end k f
        → Yields t end (suc k) fut

pub after_submit_live :
    (aborted : ℕ → Bool) (t : ℕ) (mail : ℕ → Option (Mpsc ExecutorTask))
    → aborted t ≡ false
    → after_submit aborted t (board [] [] mail) ≡ board (t ∷ []) [] mail
after_submit_live aborted t mail live = rw (live, after_submit) refl

pub after_submit_idle :
    (aborted : ℕ → Bool) (t e : ℕ) (es : List ℕ) (mail : ℕ → Option (Mpsc ExecutorTask))
    → aborted t ≡ false
    → after_submit aborted t (board [] (e ∷ es) mail) ≡ board [] es (post mail e t)
after_submit_idle aborted t e es mail live = rw (live, after_submit) refl

pub after_ready_none :
    (aborted : ℕ → Bool) (id : ℕ) (es : List ℕ) (mail : ℕ → Option (Mpsc ExecutorTask))
    → after_ready aborted id (board [] es mail) ≡ board [] (es ++ id ∷ []) mail
unfolding first_live
after_ready_none aborted id es mail = refl

pub after_ready_live :
    (aborted : ℕ → Bool) (id t : ℕ) (mail : ℕ → Option (Mpsc ExecutorTask))
    → aborted t ≡ false
    → after_ready aborted id (board (t ∷ []) [] mail) ≡ board [] [] (post mail id t)
unfolding first_live
after_ready_live aborted id t mail live = rw (live, after_ready) refl

-- The order in which `k` rounds are run, by the executors that take turns.
abbrev pub relay : ℕ → List ℕ → List ℕ
relay zero order = []
relay (suc k) [] = []
relay (suc k) (id ∷ es) = id ∷ relay k (es ++ id ∷ [])

-- The order of the executors after `k` turns.
abbrev pub turned : ℕ → List ℕ → List ℕ
turned zero order = order
turned (suc k) [] = []
turned (suc k) (id ∷ es) = turned k (es ++ id ∷ [])

pub count-turned : (k e : ℕ) (order : List ℕ) → count e (turned k order) ≡ count e order
count-turned zero e order = refl
count-turned (suc k) e [] = refl
count-turned (suc k) e (id ∷ es) =
    omega (arith, count-turned k e (es ++ id ∷ []), count-append e es (id ∷ []))

-- The mailbox of executor `e` is empty and open.
abbrev pub Vacant : (ℕ → Option (Mpsc ExecutorTask)) → ℕ → Type 0
Vacant mail e =
    (c : Mpsc ExecutorTask) × (mail e ≡ some c)
    × (c.queue ≡ [])
    × (c.receiver ≡ true)
    × (0 < c.bound)

Vacant-eq :
    (mail mail' : ℕ → Option (Mpsc ExecutorTask)) (e : ℕ)
    → mail' e ≡ mail e
    → Vacant mail e
    → Vacant mail' e
Vacant-eq mail mail' e same (c, found, queued, alive, bound) =
    (c, same ∙ found, queued, alive, bound)

pub Vacant-CanReceive :
    (mail : ℕ → Option (Mpsc ExecutorTask)) (e : ℕ) → Vacant mail e → CanReceive mail e
Vacant-CanReceive mail e (c, found, empty, alive, bound) =
    (c, found, alive, omega (arith, ap length empty, bound))

pub Shows-mail :
    (m : Manager) (cap : ℕ) (es : List ℕ) (mail : ℕ → Option (Mpsc ExecutorTask))
    → Shows m cap (board [] es mail)
    → Shows m cap (board [] es m.executors)
Shows-mail m cap es mail shown = record {
  tasks_held = shown.tasks_held;
  idle_held = shown.idle_held;
  mailed = refl;
}

-- The executors `es` are different ones, and nothing is in their mailboxes.
abbrev pub Ready : (ℕ → Option (Mpsc ExecutorTask)) → List ℕ → Type 0
Ready mail es = (e : ℕ) → (count e es ≤ 1) × (count e es ≢ 0 → Vacant mail e)

module _ (mail : ℕ → Option (Mpsc ExecutorTask)) where
  pub Ready-insert :
      (id : ℕ) (c : Mpsc ExecutorTask) (es : List ℕ)
      → count id es ≡ 0
      → Ready mail es
      → Ready (insert mail id c) es
  Ready-insert id c es away v e = (
    (v e).0,
    λ held. elim (Bool-cases (e == id)) [
      | inl same ↦
          let who : e ≡ id = ground arith in absurd (held (ap (λ x. count x es) who ∙ away))
      | inr other ↦ Vacant-eq mail (insert mail id c) e (rw other refl) ((v e).1 held)
    ],
  )

  pub Ready-post : (e₀ t : ℕ) (es : List ℕ) → Ready mail (e₀ ∷ es) → Ready (post mail e₀ t) es
  Ready-post e₀ t es v e = (
    omega (arith, (v e).0),
    λ held. elim (Bool-cases (e₀ == e)) [
      | inl same ↦ absurd (ground (arith, (v e).0))
      | inr other ↦
          Vacant-eq mail (post mail e₀ t) e (post_ne mail e₀ t e (ground arith))
            ((v e).1 (omega arith))
    ],
  )

  pub Ready-append :
      (id : ℕ) (es : List ℕ)
      → count id es ≡ 0
      → Vacant mail id
      → Ready mail es
      → Ready mail (es ++ id ∷ [])
  Ready-append id es away vacant v e = elim (Bool-cases (id == e)) [
    | inl same ↦
        let who : id ≡ e = ground arith in
        (ground (arith, count-append e es (id ∷ [])), λ held. rw (← who) vacant)
    | inr other ↦ (
      ground (arith, count-append e es (id ∷ []), (v e).0),
      λ held. (v e).1 (ground (arith, count-append e es (id ∷ []))),
    )
  ]

module _ {F : Type 0} where
  -- Task `t` is live and its future is in the state `fut`.
  pub record Live (h : Host F) (t : ℕ) (fut : Option F) : Type 0 where
    pub state : (h.tasks t).future ≡ fut
    pub sound : (h.tasks t).poisoned ≡ false
    pub wanted : (h.tasks t).abort ≡ false

  Live-update :
      {h : Host F} {t : ℕ} {fut : Option F} (f : Option F) (m : Manager)
      → Live h t fut
      → Live (update_task t (λ task. record task { future = f }) (with_manager m h)) t f
  Live-update {t} f m l = record {
    state = rw (==_refl t) refl;
    sound = rw (==_refl t) l.sound;
    wanted = rw (==_refl t) l.wanted;
  }

  -- Executor `id` has the messages `q`, at most one, and is idle if it has none; no task waits; the
  -- executors `es` are idle.
  pub record Mail (h : Host F) (id cap : ℕ) (es : List ℕ) (q : List ExecutorTask) : Type 0 where
    pub shown : Shows h.manager cap (board [] es h.manager.executors)
    pub ch : Mpsc ExecutorTask
    pub found : h.manager.executors id ≡ some ch
    pub queued : ch.queue ≡ q
    pub alive : ch.receiver ≡ true
    pub room : 0 < ch.bound
    pub seat : count id es + length q ≡ 1
    pub idle : Ready h.manager.executors es
    pub space : length es + length q < cap
    pub some_space : 1 < cap

  -- The first executor of `order` has task `t`, and the others are idle.
  abbrev pub Handed : Host F → ℕ → ℕ → List ℕ → Type 0
  Handed h cap t [] = ⊥
  Handed h cap t (id ∷ es) = Mail h id cap es (run_task t ∷ [])
