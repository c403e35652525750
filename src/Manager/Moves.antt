-- ===== src/Manager/Moves.antt =====
-- Under the invariant of `Manager.System` the manager's calls return, and what they do keeps it.
use min_async_runtime.Base.{
  ℕ, ◌≤◌, ◌<◌, ◌≡◌, ◌≢◌, refl, ap, ◌∙◌, inl, inr, Bool, false, List, [], ◌∷◌, Option, none, some,
  length, count, count-append, length_of_distinct, ltb, ltb→lt, Bool-cases, returned, arith,
}
use min_async_runtime.Mpsc.{Mpsc}
use min_async_runtime.Manager.{
  Manager, ExecutorTask, executor_ready, register_or_execute_non_blocking_task,
}
use min_async_runtime.Manager.Board.{
  Board, Shows, CanReceive, first_live, after_ready, after_submit, assign, settle,
}
use min_async_runtime.Manager.Refine.{board, executor_ready_lem, register_or_execute_lem}
use min_async_runtime.Manager.System.{System, Inv, clear, busy}
use min_async_runtime.Manager.Seats.{Seat-submit, Seat-idle, Seat-again, post_ne, AllTasks-post}

module _ {n cap : ℕ} {s : System} {b : Board} (small : n < cap) (v : Inv n cap s b) where
  -- An idle or polling executor is one of the `n`.
  pub idle_below : (e : ℕ) → count e b.idle ≢ 0 → e < n
  idle_below e h = elim (Bool-cases (ltb e n)) [
    | inl below ↦ ltb→lt e n below
    | inr above ↦ absurd (h (v.others e (ground arith)).0)
  ]

  pub polling_below : (e t : ℕ) → s.running e ≡ some t → e < n
  polling_below e t h = elim (Bool-cases (ltb e n)) [
    | inl below ↦ ltb→lt e n below
    | inr above ↦ ground (arith, v.others e)
  ]

  pub channel_below : (e : ℕ) (ch : Mpsc ExecutorTask) → b.mail e ≡ some ch → e < n
  channel_below e ch found = elim (Bool-cases (ltb e n)) [
    | inl below ↦ ltb→lt e n below
    | inr above ↦ ground (arith, v.others e)
  ]

  -- It has not ended.
  pub idle_live : (e : ℕ) → count e b.idle ≢ 0 → s.ended e ≡ false
  idle_live e h = elim (Bool-cases (s.ended e)) [
    | inl over ↦ absurd (h (v.gone e over).0)
    | inr alive ↦ alive
  ]

  pub polling_live : (e t : ℕ) → s.running e ≡ some t → s.ended e ≡ false
  polling_live e t h = elim (Bool-cases (s.ended e)) [
    | inl over ↦ absurd (cc (h, (v.gone e over).1))
    | inr alive ↦ alive
  ]

  -- The mailbox of an executor that polls is empty.
  pub polling-empty :
      (e t : ℕ) (ch : Mpsc ExecutorTask)
      → s.running e ≡ some t
      → b.mail e ≡ some ch
      → length ch.queue ≡ 0
  polling-empty e t ch polling found =
      let (c, there, _, _, once) =
        v.seated e (polling_below e t polling) (polling_live e t polling) in
      let one : c ≡ ch = cc (found, there) in
      omega (arith, ap busy polling, once, ap (λ x. length x.queue) one)

  pub message_live :
      (e : ℕ) (ch : Mpsc ExecutorTask) (msg : ExecutorTask) (q : List ExecutorTask)
      → b.mail e ≡ some ch
      → ch.queue ≡ msg ∷ q
      → s.ended e ≡ false
  message_live e ch msg q found head = elim (Bool-cases (s.ended e)) [
    | inl over ↦ absurd (cc (((v.gone e over).2 ch found).0, head))
    | inr alive ↦ alive
  ]

  idle_once : (e : ℕ) → count e b.idle ≤ 1
  idle_once e = elim (Bool-cases (ltb e n)) [
    | inl below ↦ elim (Bool-cases (s.ended e)) [
      | inl over ↦ omega (arith, (v.gone e over).0)
      | inr alive ↦ let (ch, _, _, _, once) = v.seated e (ltb→lt e n below) alive in omega arith
    ]
    | inr above ↦ ground (arith, v.others e)
  ]

  pub idle_room : length b.idle < cap
  idle_room = omega (arith, length_of_distinct n b.idle idle_once (λ e h. (v.others e h).0))

  pub can_receive : (e : ℕ) → e < n → s.ended e ≡ false → CanReceive b.mail e
  can_receive e below running_on =
      let (ch, found, alive, bound, once) = v.seated e below running_on in
      (ch, found, alive, omega arith)

  idle-CanReceive : (e : ℕ) (es : List ℕ) → b.idle ≡ e ∷ es → CanReceive b.mail e
  idle-CanReceive e es h = can_receive e (idle_below e (ground arith)) (idle_live e (ground arith))

  -- Unless the task queue is full, handing a task over returns.
  pub submit_total :
      (aborted : ℕ → Bool) (t : ℕ)
      → (aborted t ≡ false → b.idle ≡ [] → length b.tasks < cap)
      → (m : Manager) × (register_or_execute_non_blocking_task aborted t s.manager ≡ returned tt m)
        × Shows m cap (after_submit aborted t b)
  submit_total aborted t room =
      register_or_execute_lem aborted s.manager cap b v.shown t room idle-CanReceive

  -- An executor that is polling can always ask for more.
  pub finish_total :
      (aborted : ℕ → Bool) (e t : ℕ)
      → s.running e ≡ some t
      → (m : Manager) × (executor_ready aborted e s.manager ≡ returned tt m)
        × Shows m cap (after_ready aborted e b)
  finish_total aborted e t polling =
      executor_ready_lem aborted s.manager cap b v.shown e idle_room
        (can_receive e (polling_below e t polling) (polling_live e t polling))

abbrev pub with_manager : System → Manager → System
with_manager s m = record s { manager = m }

assign-Inv :
    (n cap : ℕ) (s : System) (ts es : List ℕ) (mail : ℕ → Option (Mpsc ExecutorTask)) (t : ℕ)
    (m : Manager)
    → n < cap
    → Inv n cap s (board ts es mail)
    → Shows m cap (assign t (board ts es mail))
    → Inv n cap (with_manager s m) (assign t (board ts es mail))
assign-Inv n cap s ts [] mail t m small v shown = record {
  shown = shown;
  seated = v.seated;
  gone = v.gone;
  others = v.others;
  no_waste = inl refl;
  no_stop = v.no_stop;
}
assign-Inv n cap s ts (e₀ ∷ es) mail t m small v shown = record {
  shown = shown;
  seated = λ e below alive. Seat-submit mail e₀ t es s.running e (v.seated e below alive);
  gone = λ e over.
      let (none_idle, free, closed) = v.gone e over in
      (ground arith, free, rw (post_ne mail e₀ t e (ground arith)) closed);
  others = λ e above.
      let old = v.others e above in
      let first : e₀ < n = idle_below small v e₀ (ground arith) in
      (ground arith, old.1, post_ne mail e₀ t e (ground arith) ∙ old.2);
  no_waste = ground arith;
  no_stop = AllTasks-post mail e₀ t v.no_stop;
}

pub submit-Inv :
    (n cap : ℕ) (s : System) (b : Board) (aborted : ℕ → Bool) (t : ℕ) (m : Manager)
    → n < cap
    → Inv n cap s b
    → Shows m cap (after_submit aborted t b)
    → Inv n cap (with_manager s m) (after_submit aborted t b)
submit-Inv n cap s b aborted t m small v shown = elim (Bool-cases (aborted t)) [
  | inl dead ↦
      rw (dead, after_submit)
        (record {
          shown = rw (dead, after_submit) at shown;
          seated = v.seated;
          gone = v.gone;
          others = v.others;
          no_waste = v.no_waste;
          no_stop = v.no_stop;
        })
  | inr live ↦
      rw (live, after_submit)
        (assign-Inv n cap s b.tasks b.idle b.mail t m small v (rw (live, after_submit) at shown))
]

-- The system after executor `e` has finished.
abbrev pub finished_by : System → ℕ → Manager → System
finished_by s e m = record { manager = m; running = clear s.running e; ended = s.ended }

pub settle-Inv :
    (n cap : ℕ) (s : System) (b : Board) (e₀ t : ℕ) (next : Option (ℕ × List ℕ)) (m : Manager)
    → n < cap
    → Inv n cap s b
    → s.running e₀ ≡ some t
    → (next ≢ none → b.tasks ≢ [])
    → Shows m cap (settle e₀ next b.idle b.mail)
    → Inv n cap (finished_by s e₀ m) (settle e₀ next b.idle b.mail)
settle-Inv n cap s b e₀ t none m small v polling waits shown =
    let first : e₀ < n = polling_below small v e₀ t polling in
    record {
      shown = shown;
      seated = λ e below alive.
          Seat-idle b.mail e₀ t b.idle s.running e polling (v.seated e below alive);
      gone = λ e over.
          let (none_idle, free, closed) = v.gone e over in
          (ground (arith, count-append e b.idle (e₀ ∷ [])), ground arith, closed);
      others = λ e above.
          let old = v.others e above in
          (ground (arith, count-append e b.idle (e₀ ∷ [])), ground arith, old.2);
      no_waste = inr refl;
      no_stop = v.no_stop;
    }
settle-Inv n cap s b e₀ t (some (u, rest)) m small v polling waits shown =
    let first : e₀ < n = polling_below small v e₀ t polling in
    record {
      shown = shown;
      seated = λ e below alive.
          Seat-again b.mail e₀ t u b.idle s.running e polling (v.seated e below alive);
      gone = λ e over.
          let (none_idle, free, closed) = v.gone e over in
          (none_idle, ground arith, rw (post_ne b.mail e₀ u e (ground arith)) closed);
      others = λ e above.
          let old = v.others e above in
          (old.0, ground arith, post_ne b.mail e₀ u e (ground arith) ∙ old.2);
      no_waste = elim v.no_waste [
        | inl idle ↦ inl idle
        | inr tasks ↦ absurd (waits (λ h. cc) tasks)
      ];
      no_stop = AllTasks-post b.mail e₀ u v.no_stop;
    }

pub first_live_nil : (aborted : ℕ → Bool) (ts : List ℕ) → first_live aborted ts ≢ none → ts ≢ []
unfolding first_live
first_live_nil aborted [] h e = h refl
first_live_nil aborted (t ∷ ts) h e = cc
