-- ===== src/Manager/Overlap/Conserved.antt =====
-- A step of a call of src/task/manager.rs among other threads: it can be made, keeps every executor
-- in its place, and neither loses nor repeats a task.
use min_async_runtime.Base.{
  ℕ, ◌+◌, ◌<◌, ◌≡◌, refl, ap, inl, inr, Bool, [], ◌∷◌, ◌++◌, some, length, count, count-append,
  get_elem?, if◌then◌else◌, Bool-cases, List-cases, returned, arith,
}
use min_async_runtime.Base.Monad.{effects}
use min_async_runtime.Manager.{Manager}
use min_async_runtime.Manager.Board.{Board, post}
use min_async_runtime.Manager.Refine.{
  board, push_executor_lem, push_task_lem, send_to_lem, pop_task-none, pop_task-some,
  pop_executor-none, pop_executor-some,
}
use min_async_runtime.Manager.Accounts.{tally, tally-append, mailed, polling, mailed-post}
use min_async_runtime.Manager.Overlap.{
  Call, registers, seeks, stores, is_ready, checks, waits, delivers, over, call_step, Threads,
}
use min_async_runtime.Manager.Overlap.Places.{
  sum_calls, sum_calls-set, Placed, stepped, idle_room, executor_below, called-CanReceive,
  Placed-stepped, Placed-delivered,
}

-- The task that a call has with it.
abbrev pub carries : (ℕ → ℕ) → Call → ℕ
carries w (registers t) = w t
carries w (seeks t) = w t
carries w (stores t) = w t
carries w (is_ready e) = 0
carries w (checks e t) = w t
carries w (waits e) = 0
carries w (delivers e t) = w t
carries w over = 0

-- The tasks, by weight, that wait, are in a mailbox, are polled, or are with a call.
abbrev pub stock : ℕ → (ℕ → ℕ) → Threads → Board → ℕ
stock n w s b =
    tally w b.tasks + mailed n w b.mail + polling n w s.running + sum_calls (carries w) s.calls

-- The task that a step drops, as it has been aborted.
abbrev pub drops : (ℕ → Bool) → Call → (ℕ → ℕ) → ℕ
drops aborted (registers t) w = if aborted t then w t else 0
drops aborted (seeks t) w = 0
drops aborted (stores t) w = 0
drops aborted (is_ready e) w = 0
drops aborted (checks e t) w = if aborted t then w t else 0
drops aborted (waits e) w = 0
drops aborted (delivers e t) w = 0
drops aborted over w = 0

-- Call `i`, at `c`, goes on.
pub record Goes (n cap : ℕ) (aborted : ℕ → Bool) (s : Threads) (b : Board) (i : ℕ) (c : Call)
    : Type 0 where
  pub next : Call
  pub manager : Manager
  pub after : Board
  pub returns : call_step aborted c s.manager ≡ returned next manager
  pub placed : Placed n cap (stepped s i next manager) after
  pub conserved :
      (w : ℕ → ℕ) → stock n w (stepped s i next manager) after + drops aborted c w ≡ stock n w s b

module _ {n cap : ℕ} {s : Threads} {b : Board} (small : n < cap) (v : Placed n cap s b)
    (aborted : ℕ → Bool) (i : ℕ) where
  pub call-Goes :
      (c : Call)
      → get_elem? s.calls i ≡ some c
      → ((t : ℕ) → c ≡ stores t → length b.tasks < cap)
      → Goes n cap aborted s b i c
  unfolding call_step
  call-Goes (registers t) found room = elim (Bool-cases (aborted t)) [
    | inl dead ↦ record {
      next = over;
      manager = s.manager;
      after = b;
      returns = rw dead refl;
      placed =
          Placed-stepped small v i (registers t) found over s.manager b.tasks b.idle v.shown
            (λ e. omega arith);
      conserved = λ w. ground (arith, sum_calls-set (carries w) s.calls i (registers t) over found);
    }
    | inr live ↦ record {
      next = seeks t;
      manager = s.manager;
      after = b;
      returns = rw live refl;
      placed =
          Placed-stepped small v i (registers t) found (seeks t) s.manager b.tasks b.idle v.shown
            (λ e. omega arith);
      conserved =
          λ w. ground (arith, sum_calls-set (carries w) s.calls i (registers t) (seeks t) found);
    }
  ]
  call-Goes (seeks t) found room = elim (List-cases b.idle) [
    | inl empty ↦ record {
      next = stores t;
      manager = s.manager;
      after = b;
      returns = rw (pop_executor-none v.shown empty, effects) refl;
      placed =
          Placed-stepped small v i (seeks t) found (stores t) s.manager b.tasks b.idle v.shown
            (λ e. omega arith);
      conserved =
          λ w. omega (arith, sum_calls-set (carries w) s.calls i (seeks t) (stores t) found);
    }
    | inr (e, es, first) ↦
        let (m, p, shown) = pop_executor-some e es v.shown first in
        record {
          next = delivers e t;
          manager = m;
          after = board b.tasks es b.mail;
          returns = rw (p, effects) refl;
          placed =
              Placed-stepped small v i (seeks t) found (delivers e t) m b.tasks es shown
                (λ j. omega (arith, ap (count j) first));
          conserved = λ w.
              omega (arith, sum_calls-set (carries w) s.calls i (seeks t) (delivers e t) found);
        }
  ]
  call-Goes (stores t) found room =
      let (m, p, shown) = push_task_lem t v.shown (room t refl) in
      record {
        next = over;
        manager = m;
        after = board (b.tasks ++ t ∷ []) b.idle b.mail;
        returns = rw (p, effects) refl;
        placed =
            Placed-stepped small v i (stores t) found over m (b.tasks ++ t ∷ []) b.idle shown
              (λ j. omega arith);
        conserved = λ w. omega (
          arith,
          sum_calls-set (carries w) s.calls i (stores t) over found,
          tally-append w b.tasks t,
        );
      }
  call-Goes (is_ready e) found room = elim (List-cases b.tasks) [
    | inl empty ↦ record {
      next = waits e;
      manager = s.manager;
      after = b;
      returns = rw (pop_task-none v.shown empty, effects) refl;
      placed =
          Placed-stepped small v i (is_ready e) found (waits e) s.manager b.tasks b.idle v.shown
            (λ j. refl);
      conserved =
          λ w. omega (arith, sum_calls-set (carries w) s.calls i (is_ready e) (waits e) found);
    }
    | inr (t, ts, first) ↦
        let (m, p, shown) = pop_task-some t ts v.shown first in
        record {
          next = checks e t;
          manager = m;
          after = board ts b.idle b.mail;
          returns = rw (p, effects) refl;
          placed =
              Placed-stepped small v i (is_ready e) found (checks e t) m ts b.idle shown
                (λ j. refl);
          conserved = λ w. omega (
            arith,
            sum_calls-set (carries w) s.calls i (is_ready e) (checks e t) found,
            ap (tally w) first,
          );
        }
  ]
  call-Goes (checks e t) found room = elim (Bool-cases (aborted t)) [
    | inl dead ↦ record {
      next = is_ready e;
      manager = s.manager;
      after = b;
      returns = rw dead refl;
      placed =
          Placed-stepped small v i (checks e t) found (is_ready e) s.manager b.tasks b.idle v.shown
            (λ j. refl);
      conserved =
          λ w. ground (arith, sum_calls-set (carries w) s.calls i (checks e t) (is_ready e) found);
    }
    | inr live ↦ record {
      next = delivers e t;
      manager = s.manager;
      after = b;
      returns = rw live refl;
      placed =
          Placed-stepped small v i (checks e t) found (delivers e t) s.manager b.tasks b.idle
            v.shown (λ j. refl);
      conserved = λ w.
          ground (arith, sum_calls-set (carries w) s.calls i (checks e t) (delivers e t) found);
    }
  ]
  call-Goes (waits e) found room =
      let (m, p, shown) = push_executor_lem e v.shown (idle_room small v) in
      record {
        next = over;
        manager = m;
        after = board b.tasks (b.idle ++ e ∷ []) b.mail;
        returns = rw (p, effects) refl;
        placed =
            Placed-stepped small v i (waits e) found over m b.tasks (b.idle ++ e ∷ []) shown
              (λ j. omega (arith, count-append j b.idle (e ∷ [])));
        conserved = λ w. omega (arith, sum_calls-set (carries w) s.calls i (waits e) over found);
      }
  call-Goes (delivers e t) found room =
      let below = executor_below small v i (delivers e t) found e (ground arith) in
      let can = called-CanReceive small v i (delivers e t) found e (ground arith) in
      let (m, p, shown) = send_to_lem e t v.shown can in
      let (ch, there, _, _) = can in
      record {
        next = over;
        manager = m;
        after = record b { mail = post b.mail e t };
        returns = rw (p, effects) refl;
        placed = Placed-delivered small v i (delivers e t) found e t m refl shown;
        conserved = λ w. omega (
          arith,
          sum_calls-set (carries w) s.calls i (delivers e t) over found,
          mailed-post n w e t b.mail ch below there,
        );
      }
  call-Goes over found room = record {
    next = over;
    manager = s.manager;
    after = b;
    returns = refl;
    placed = Placed-stepped small v i over found over s.manager b.tasks b.idle v.shown (λ j. refl);
    conserved = λ w. omega (arith, sum_calls-set (carries w) s.calls i over over found);
  }
