-- ===== src/Manager/Overlap/Places.antt =====
-- The places of executors while several threads call src/task/manager.rs at once: idle, named in a
-- message, polling, or with a call that has taken them out of the queue or not yet put them in.
use min_async_runtime.Base.{
  ℕ, zero, suc, ◌+◌, ◌≤◌, ◌<◌, ◌≡◌, ◌≢◌, ap, ◌∙◌, inl, inr, true, List, [], ◌∷◌, ◌++◌, none, some,
  length, count, length-append, length_of_distinct, get_elem?, set, ltb, ltb→lt, ◌==◌,
  if◌then◌else◌, Bool-cases, arith,
}
use min_async_runtime.Mpsc.{Mpsc}
use min_async_runtime.Manager.{Manager, ExecutorTask, run_task}
use min_async_runtime.Manager.Board.{Board, Shows, CanReceive, post}
use min_async_runtime.Manager.Refine.{board}
use min_async_runtime.Manager.System.{busy, max_queued_tasks}
use min_async_runtime.Manager.Seats.{post_self, post_ne}
use min_async_runtime.Manager.Overlap.{
  Call, registers, seeks, stores, is_ready, checks, waits, delivers, over, Threads,
}

abbrev pub sum_calls : (Call → ℕ) → List Call → ℕ
sum_calls f [] = 0
sum_calls f (c ∷ cs) = f c + sum_calls f cs

pub sum_calls-append :
    (f : Call → ℕ) (cs : List Call) (c : Call) → sum_calls f (cs ++ c ∷ []) ≡ sum_calls f cs + f c
sum_calls-append f [] c = omega arith
sum_calls-append f (d ∷ cs) c = omega (arith, sum_calls-append f cs c)

pub sum_calls-set :
    (f : Call → ℕ) (cs : List Call) (i : ℕ) (c c' : Call)
    → get_elem? cs i ≡ some c
    → sum_calls f (set cs i c') + f c ≡ sum_calls f cs + f c'
sum_calls-set f [] i c c' found = absurd (cc)
sum_calls-set f (d ∷ cs) zero c c' found = let same : d ≡ c = cc in omega (arith, ap f same)
sum_calls-set f (d ∷ cs) (suc i) c c' found = omega (arith, sum_calls-set f cs i c c' found)

pub le-sum_calls :
    (f : Call → ℕ) (cs : List Call) (i : ℕ) (c : Call)
    → get_elem? cs i ≡ some c
    → f c ≤ sum_calls f cs
le-sum_calls f [] i c found = absurd (cc)
le-sum_calls f (d ∷ cs) zero c found = let same : d ≡ c = cc in omega (arith, ap f same)
le-sum_calls f (d ∷ cs) (suc i) c found = omega (arith, le-sum_calls f cs i c found)

-- 1 for a call that has executor `e` with it.
abbrev pub has_executor : ℕ → Call → ℕ
has_executor e (registers t) = 0
has_executor e (seeks t) = 0
has_executor e (stores t) = 0
has_executor e (is_ready e') = if e' == e then 1 else 0
has_executor e (checks e' t) = if e' == e then 1 else 0
has_executor e (waits e') = if e' == e then 1 else 0
has_executor e (delivers e' t) = if e' == e then 1 else 0
has_executor e over = 0

abbrev pub in_calls : ℕ → List Call → ℕ
in_calls e cs = sum_calls (has_executor e) cs

-- Executor `e` has a live channel and is in exactly one place.
abbrev pub Place : Threads → Board → ℕ → Type 0
Place s b e =
    (ch : Mpsc ExecutorTask) × (b.mail e ≡ some ch)
    × (ch.receiver ≡ true)
    × (ch.bound ≡ max_queued_tasks)
    × (count e b.idle + length ch.queue + busy (s.running e) + in_calls e s.calls ≡ 1)

-- `n` executors, numbered from 0, over rings of `cap` places.
pub record Placed (n cap : ℕ) (s : Threads) (b : Board) : Type 0 where
  pub shown : Shows s.manager cap b
  pub seated : (e : ℕ) → e < n → Place s b e
  pub others :
      (e : ℕ)
      → n ≤ e
      → (count e b.idle ≡ 0) × (s.running e ≡ none) × (b.mail e ≡ none) × (in_calls e s.calls ≡ 0)

abbrev pub stepped : Threads → ℕ → Call → Manager → Threads
stepped s i c m = record s { manager = m; calls = set s.calls i c }

module _ {n cap : ℕ} {s : Threads} {b : Board} (small : n < cap) (v : Placed n cap s b) where
  pub idle_once : (e : ℕ) → count e b.idle ≤ 1
  idle_once e = elim (Bool-cases (ltb e n)) [
    | inl below ↦ let (ch, _, _, _, once) = v.seated e (ltb→lt e n below) in omega arith
    | inr above ↦ ground (arith, v.others e)
  ]

  pub idle_room : length b.idle < cap
  idle_room = omega (arith, length_of_distinct n b.idle idle_once (λ e h. (v.others e h).0))

  module _ (i : ℕ) (c : Call) (found : get_elem? s.calls i ≡ some c) where
    pub executor_below : (e : ℕ) → has_executor e c ≢ 0 → e < n
    executor_below e with_it = elim (Bool-cases (ltb e n)) [
      | inl below ↦ ltb→lt e n below
      | inr above ↦
          let (_, _, _, free) = v.others e (ground arith) in
          absurd (with_it (omega (arith, le-sum_calls (has_executor e) s.calls i c found)))
    ]

    -- The channel of an executor that a call has with it is empty.
    pub called-CanReceive : (e : ℕ) → has_executor e c ≡ 1 → CanReceive b.mail e
    called-CanReceive e one =
        let (ch, there, alive, bound, once) = v.seated e (executor_below e (omega arith)) in
        (ch, there, alive, omega (arith, le-sum_calls (has_executor e) s.calls i c found))

    -- A step that leaves the channels alone.
    pub Placed-stepped :
        (c' : Call) (m : Manager) (ts es : List ℕ)
        → Shows m cap (board ts es b.mail)
        → ((e : ℕ) → count e es + has_executor e c' ≡ count e b.idle + has_executor e c)
        → Placed n cap (stepped s i c' m) (board ts es b.mail)
    Placed-stepped c' m ts es shown same = record {
      shown = shown;
      seated = λ e below.
          let (ch, there, alive, bound, once) = v.seated e below in
          (
            ch,
            there,
            alive,
            bound,
            omega (arith, once, same e, sum_calls-set (has_executor e) s.calls i c c' found),
          );
      others = λ e above.
          let (not_idle, free, missing, not_called) = v.others e above in
          let sums = sum_calls-set (has_executor e) s.calls i c c' found in
          let within = le-sum_calls (has_executor e) s.calls i c found in
          (
            omega (arith, not_idle, not_called, same e, sums, within),
            free,
            missing,
            omega (arith, not_idle, not_called, same e, sums, within),
          );
    }

    -- The step that sends the task.
    pub Placed-delivered :
        (e₀ t : ℕ) (m : Manager)
        → c ≡ delivers e₀ t
        → Shows m cap (record b { mail = post b.mail e₀ t })
        → Placed n cap (stepped s i over m) (record b { mail = post b.mail e₀ t })
    Placed-delivered e₀ t m at shown = record {
      shown = shown;
      seated = λ e below.
          let (ch, there, alive, bound, once) = v.seated e below in
          let sums = sum_calls-set (has_executor e) s.calls i c over found in
          let weight = ap (has_executor e) at in
          elim (Bool-cases (e₀ == e)) [
            | inl same ↦
                let id : e₀ ≡ e = ground arith in
                (
                  record ch { queue = ch.queue ++ run_task t ∷ [] },
                  rw id (post_self b.mail e t ch there),
                  alive,
                  bound,
                  ground (arith, once, sums, weight, length-append ch.queue (run_task t ∷ [])),
                )
            | inr other ↦ (
              ch,
              post_ne b.mail e₀ t e (ground arith) ∙ there,
              alive,
              bound,
              ground (arith, once, sums, weight),
            )
          ];
      others = λ e above.
          let (not_idle, free, missing, not_called) = v.others e above in
          let sums = sum_calls-set (has_executor e) s.calls i c over found in
          let within = le-sum_calls (has_executor e) s.calls i c found in
          let weight = ap (has_executor e) at in
          let ne : e₀ ≢ e = ground (arith, not_called, within, weight) in
          (
            not_idle,
            free,
            post_ne b.mail e₀ t e ne ∙ missing,
            omega (arith, not_called, sums, within),
          );
    }
