-- ===== src/Manager/Overlap/Kept.antt =====
-- What one step of a thread of `Manager.Overlap` does to the places of the executors of
-- src/executor.rs and to the tasks under way.
use min_async_runtime.Base.{
  ℕ, ◌+◌, ◌<◌, ◌≡◌, ◌≢◌, ◌⊎◌, refl, sym, ap, ◌∙◌, inl, inr, Bool, false, List, [], ◌∷◌, ◌++◌, none,
  some, length, count, get_elem?, ltb, ltb→lt, ◌==◌, Bool-cases, Exit, returned, panicked, arith,
}
use min_async_runtime.Base.Monad.{effects}
use min_async_runtime.Mpsc.{Mpsc}
use min_async_runtime.Manager.{Manager, ExecutorTask, run_task, insert}
use min_async_runtime.Manager.Board.{Board}
use min_async_runtime.Manager.Refine.{push_task-full}
use min_async_runtime.Manager.System.{clear, busy}
use min_async_runtime.Manager.Overlap.{
  Call, registers, seeks, stores, is_ready, checks, waits, delivers, over, call_step, Threads,
}
use min_async_runtime.Manager.Overlap.Places.{
  sum_calls-append, sum_calls-set, Placed, stepped, has_executor, Placed-stepped,
}
use min_async_runtime.Manager.Overlap.Conserved.{carries, stock, drops, Goes, call-Goes}

returned-same :
    {c c' : Call} {m m' : Manager}
    → ◌≡◌ {A = Exit Manager Call} (returned c m) (returned c' m')
    → (c ≡ c') × (m ≡ m')
returned-same e = (cc, cc)

store_or_other : (c : Call) → ((t : ℕ) × (c ≡ stores t)) ⊎ ((t : ℕ) → c ≢ stores t)
store_or_other (registers t) = inr (λ u h. cc)
store_or_other (seeks t) = inr (λ u h. cc)
store_or_other (stores t) = inl (t, refl)
store_or_other (is_ready e) = inr (λ u h. cc)
store_or_other (checks e t) = inr (λ u h. cc)
store_or_other (waits e) = inr (λ u h. cc)
store_or_other (delivers e t) = inr (λ u h. cc)
store_or_other over = inr (λ u h. cc)

module _ {n cap : ℕ} {s : Threads} {b : Board} (small : n < cap) (v : Placed n cap s b) where
  -- A call that is to store its task while the queue is full panics. Any other goes on.
  pub call_cases :
      (aborted : ℕ → Bool) (i : ℕ) (c : Call)
      → get_elem? s.calls i ≡ some c
      → Goes n cap aborted s b i c
        ⊎ ((t : ℕ) × (c ≡ stores t)
            × (length b.tasks ≡ cap)
            × (call_step aborted c s.manager ≡ panicked s.manager))
  unfolding call_step
  call_cases aborted i c found = elim (Bool-cases (ltb (length b.tasks) cap)) [
    | inl room ↦
        inl (call-Goes small v aborted i c found (λ t at. ltb→lt (length b.tasks) cap room))
    | inr none_left ↦ elim (store_or_other c) [
      | inl (t, at) ↦
          let full : length b.tasks ≡ cap = ground (arith, v.shown.tasks_held.fits) in
          inr (t, at, full, rw at (rw (push_task-full t v.shown full, effects) refl))
      | inr other ↦ inl (call-Goes small v aborted i c found (λ t at. absurd (other t at)))
    ]
  ]

  pub goes_on_lem :
      (aborted : ℕ → Bool) (i : ℕ) (c c' : Call) (m : Manager)
      → get_elem? s.calls i ≡ some c
      → call_step aborted c s.manager ≡ returned c' m
      → (b' : Board) × Placed n cap (stepped s i c' m) b'
        × ((w : ℕ → ℕ) → stock n w (stepped s i c' m) b' + drops aborted c w ≡ stock n w s b)
  goes_on_lem aborted i c c' m found e = elim (call_cases aborted i c found) [
    | inl g ↦
        let (c_same, m_same) = returned-same (sym g.returns ∙ e) in
        (g.after, rw (c_same, m_same) at g.placed, λ w. rw c_same at (g.conserved w))
    | inr (t, at, full, p) ↦ absurd (cc)
  ]

  pub unwinds_lem :
      (aborted : ℕ → Bool) (i : ℕ) (c : Call) (m : Manager)
      → get_elem? s.calls i ≡ some c
      → call_step aborted c s.manager ≡ panicked m
      → Placed n cap (stepped s i over m) b
        × ((w : ℕ → ℕ) → stock n w (stepped s i over m) b + carries w c ≡ stock n w s b)
  unwinds_lem aborted i c m found e = elim (call_cases aborted i c found) [
    | inl g ↦ absurd (cc (g.returns))
    | inr (t, at, full, p) ↦
        let same : s.manager ≡ m = cc in
        (
          Placed-stepped small v i c found over m b.tasks b.idle (rw same at v.shown)
              (λ j. ap (λ x. count j b.idle + has_executor j x) (sym at)),
          λ w. omega (arith, sum_calls-set (carries w) s.calls i c over found),
        )
  ]

  pub hands_lem : (t : ℕ) → Placed n cap (record s { calls = s.calls ++ registers t ∷ [] }) b
  hands_lem t = record {
    shown = v.shown;
    seated = λ e below.
        let (ch, there, alive, bound, once) = v.seated e below in
        (
          ch,
          there,
          alive,
          bound,
          omega (arith, once, sum_calls-append (has_executor e) s.calls (registers t)),
        );
    others = λ e above.
        let (not_idle, free, missing, not_called) = v.others e above in
        (
          not_idle,
          free,
          missing,
          omega (arith, not_called, sum_calls-append (has_executor e) s.calls (registers t)),
        );
  }

  pub polling_below : (e t : ℕ) → s.running e ≡ some t → e < n
  polling_below e t h = elim (Bool-cases (ltb e n)) [
    | inl below ↦ ltb→lt e n below
    | inr above ↦ ground (arith, v.others e)
  ]

  pub channel_below : (e : ℕ) (ch : Mpsc ExecutorTask) → b.mail e ≡ some ch → e < n
  channel_below e ch there = elim (Bool-cases (ltb e n)) [
    | inl below ↦ ltb→lt e n below
    | inr above ↦ ground (arith, v.others e)
  ]

  pub asks_lem :
      (e₀ t : ℕ)
      → s.running e₀ ≡ some t
      → Placed n cap
          (record s { running = clear s.running e₀; calls = s.calls ++ is_ready e₀ ∷ [] })
          b
  asks_lem e₀ t polls = record {
    shown = v.shown;
    seated = λ e below.
        let (ch, there, alive, bound, once) = v.seated e below in
        let sums = sum_calls-append (has_executor e) s.calls (is_ready e₀) in
        (ch, there, alive, bound, ground (arith, once, sums, ap busy polls));
    others = λ e above.
        let (not_idle, free, missing, not_called) = v.others e above in
        let sums = sum_calls-append (has_executor e) s.calls (is_ready e₀) in
        let below = polling_below e₀ t polls in
        let ne : e₀ ≢ e = omega arith in
        (not_idle, ground arith, missing, ground (arith, not_called, sums));
  }

  pub receives_lem :
      (e₀ t : ℕ) (ch₀ : Mpsc ExecutorTask) (q : List ExecutorTask)
      → s.running e₀ ≡ none
      → b.mail e₀ ≡ some ch₀
      → ch₀.queue ≡ run_task t ∷ q
      → Placed n cap
          (record {
            manager = record s.manager {
              executors = insert s.manager.executors e₀ (record ch₀ { queue = q });
            };
            running = insert s.running e₀ t;
            calls = s.calls;
          })
          (record b { mail = insert b.mail e₀ (record ch₀ { queue = q }) })
  receives_lem e₀ t ch₀ q free₀ found₀ head = record {
    shown = record {
      tasks_held = v.shown.tasks_held;
      idle_held = v.shown.idle_held;
      mailed = rw v.shown.mailed refl;
    };
    seated = λ e below.
        let (ch, there, alive, bound, once) = v.seated e below in
        elim (Bool-cases (e == e₀)) [
          | inl same ↦
              let one : some ch ≡ some ch₀ = ground arith in
              (record ch₀ { queue = q }, rw same, ground arith, ground arith, ground arith)
          | inr other ↦ (ch, ground arith, alive, bound, ground arith)
        ];
    others = λ e above.
        let (not_idle, free, missing, not_called) = v.others e above in
        let below = channel_below e₀ ch₀ found₀ in
        let ne : (e == e₀) ≡ false = ground arith in
        (not_idle, rw ne free, rw ne missing, not_called);
  }
