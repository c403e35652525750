-- ===== src/Manager/Accounts.antt =====
-- What becomes of the tasks that are handed over in `Manager.System`: src/task/manager.rs and the
-- loop of src/executor.rs lose none and repeat none.
use min_async_runtime.Base.{
  length, ℕ, ◌+◌, ◌<◌, ◌≡◌, ◌≢◌, refl, sym, ap, ◌∙◌, inl, inr, Bool, false, List, [], ◌∷◌, ◌++◌,
  Option, none, some, total, total-update, ◌==◌, if◌then◌else◌, Bool-cases, arith,
}
use min_async_runtime.Mpsc.{Mpsc}
use min_async_runtime.Manager.{ExecutorTask, run_task, finished, insert}
use min_async_runtime.Manager.Board.{post, first_live}
use min_async_runtime.Manager.Seats.{post_self, post_ne}
use min_async_runtime.Manager.System.{
  System, Step, submit, refuse, receive, finish, ends, hang_up, Reach, here, next, clear,
}

-- Tasks are counted with a weight for each: 1 for one task and 0 for the others counts that task,
-- and 1 for each counts them all.
abbrev pub only : ℕ → ℕ → ℕ
only t u = if u == t then 1 else 0

-- Only task `t` counts.
abbrev pub Counts : ℕ → (ℕ → ℕ) → Type 0
Counts t w = (u : ℕ) → u ≢ t → w u ≡ 0

pub only-Counts : (t : ℕ) → Counts t (only t)
only-Counts t u ne = ground arith

abbrev pub each : ℕ → ℕ
each u = 1

abbrev pub tally : (ℕ → ℕ) → List ℕ → ℕ
tally w [] = 0
tally w (u ∷ us) = w u + tally w us

pub tally-append : (w : ℕ → ℕ) (us : List ℕ) (v : ℕ) → tally w (us ++ v ∷ []) ≡ tally w us + w v
tally-append w [] v = omega arith
tally-append w (u ∷ us) v = omega (arith, tally-append w us v)

-- What stands in a mailbox, and what is being polled.
abbrev pub messages : (ℕ → ℕ) → List ExecutorTask → ℕ
messages w [] = 0
messages w (run_task u ∷ q) = w u + messages w q
messages w (finished ∷ q) = messages w q

abbrev pub in_mailbox : (ℕ → ℕ) → Option (Mpsc ExecutorTask) → ℕ
in_mailbox w none = 0
in_mailbox w (some ch) = messages w ch.queue

abbrev pub on_executor : (ℕ → ℕ) → Option ℕ → ℕ
on_executor w none = 0
on_executor w (some u) = w u

-- The same for all of `n` executors.
abbrev pub mailed : ℕ → (ℕ → ℕ) → (ℕ → Option (Mpsc ExecutorTask)) → ℕ
mailed n w mail = total n (λ e. in_mailbox w (mail e))

abbrev pub polling : ℕ → (ℕ → ℕ) → (ℕ → Option ℕ) → ℕ
polling n w running = total n (λ e. on_executor w (running e))

-- What a run of the system accepted from spawns and wakes, and the polls that it completed.
abbrev pub accepts : {s u : System} → Step s u → (ℕ → ℕ) → ℕ
accepts (submit aborted v m h) w = if aborted v then 0 else w v
accepts (refuse aborted v m h) w = 0
accepts (receive e v ch q free found head) w = 0
accepts (finish aborted e v m held h) w = 0
accepts (ends e v ch held found) w = 0

abbrev pub completes : {s u : System} → Step s u → (ℕ → ℕ) → ℕ
completes (submit aborted v m h) w = 0
completes (refuse aborted v m h) w = 0
completes (receive e v ch q free found head) w = 0
completes (finish aborted e v m held h) w = w v
completes (ends e v ch held found) w = 0

-- The abort flag of `t` is not set when an executor looks for its next task, and no executor's
-- thread ends with task `t`.
abbrev pub Spares : {s u : System} → ℕ → Step s u → Type 0
Spares t (submit aborted v m h) = Unit
Spares t (refuse aborted v m h) = Unit
Spares t (receive e v ch q free found head) = Unit
Spares t (finish aborted e v m held h) = aborted t ≡ false
Spares t (ends e v ch held found) = v ≢ t

abbrev pub accepted : {s u : System} → Reach s u → (ℕ → ℕ) → ℕ
accepted here w = 0
accepted (next r step) w = accepted r w + accepts step w

abbrev pub completed : {s u : System} → Reach s u → (ℕ → ℕ) → ℕ
completed here w = 0
completed (next r step) w = completed r w + completes step w

abbrev pub NeverAborted : {s u : System} → ℕ → Reach s u → Type 0
NeverAborted t here = Unit
NeverAborted t (next r step) = NeverAborted t r × Spares t step

pub messages_zero : (w : ℕ → ℕ) (q : List ExecutorTask) → length q ≡ 0 → messages w q ≡ 0
messages_zero w [] e = refl
messages_zero w (msg ∷ q) e = absurd (omega arith)

messages-append :
    (w : ℕ → ℕ) (q : List ExecutorTask) (u : ℕ)
    → messages w (q ++ run_task u ∷ []) ≡ messages w q + w u
messages-append w [] u = omega arith
messages-append w (run_task v ∷ q) u = omega (arith, messages-append w q u)
messages-append w (finished ∷ q) u = messages-append w q u

insert_self : {A : Type 0} (f : ℕ → Option A) (k : ℕ) (v : A) → insert f k v k ≡ some v
insert_self f k v = ground arith

insert_ne : {A : Type 0} (f : ℕ → Option A) (k : ℕ) (v : A) (j : ℕ) → j ≢ k → f j ≡ insert f k v j
insert_ne f k v j ne = ground arith

clear_self : {A : Type 0} (f : ℕ → Option A) (k : ℕ) → clear f k k ≡ none
clear_self f k = ground arith

clear_ne : {A : Type 0} (f : ℕ → Option A) (k j : ℕ) → j ≢ k → f j ≡ clear f k j
clear_ne f k j ne = ground arith

-- A task posted to executor `e`.
pub mailed-post :
    (n : ℕ) (w : ℕ → ℕ) (e u : ℕ) (mail : ℕ → Option (Mpsc ExecutorTask)) (ch : Mpsc ExecutorTask)
    → e < n
    → mail e ≡ some ch
    → mailed n w (post mail e u) ≡ mailed n w mail + w u
mailed-post n w e u mail ch below found =
    let there : in_mailbox w (post mail e u e) ≡ messages w ch.queue + w u =
      rw (post_self mail e u ch found) (messages-append w ch.queue u) in
    let here_now : in_mailbox w (mail e) ≡ messages w ch.queue = rw found refl in
    omega (
      arith,
      total-update n e (λ j. in_mailbox w (mail j)) (λ j. in_mailbox w (post mail e u j)) below
          (λ j ne. ap (in_mailbox w) (sym (post_ne mail e u j (λ h. ne (sym h))))),
      there,
      here_now,
    )

-- A task that executor `e` takes from its mailbox.
pub mailed-insert :
    (n : ℕ) (w : ℕ → ℕ) (e u : ℕ) (mail : ℕ → Option (Mpsc ExecutorTask)) (ch : Mpsc ExecutorTask)
    (q : List ExecutorTask)
    → e < n
    → mail e ≡ some ch
    → ch.queue ≡ run_task u ∷ q
    → mailed n w mail ≡ mailed n w (insert mail e (record ch { queue = q })) + w u
mailed-insert n w e u mail ch q below found head =
    let mail' = insert mail e (record ch { queue = q }) in
    let there : in_mailbox w (mail' e) ≡ messages w q = ground arith in
    let here_now : in_mailbox w (mail e) ≡ w u + messages w q = rw found (ap (messages w) head) in
    omega (
      arith,
      total-update n e (λ j. in_mailbox w (mail j)) (λ j. in_mailbox w (mail' j)) below
          (λ j ne. ap (in_mailbox w) (insert_ne mail e (record ch { queue = q }) j ne)),
      there,
      here_now,
    )

-- What was in the mailbox of an executor whose thread has ended.
pub mailed-hang_up :
    (n : ℕ) (w : ℕ → ℕ) (e : ℕ) (mail : ℕ → Option (Mpsc ExecutorTask)) (ch : Mpsc ExecutorTask)
    → e < n
    → mail e ≡ some ch
    → mailed n w mail ≡ mailed n w (insert mail e (hang_up ch)) + messages w ch.queue
mailed-hang_up n w e mail ch below found =
    let mail' = insert mail e (hang_up ch) in
    let there : in_mailbox w (mail' e) ≡ 0 = ap (in_mailbox w) (insert_self mail e (hang_up ch)) in
    let here_now : in_mailbox w (mail e) ≡ messages w ch.queue = ap (in_mailbox w) found in
    omega (
      arith,
      total-update n e (λ j. in_mailbox w (mail j)) (λ j. in_mailbox w (mail' j)) below
          (λ j ne. ap (in_mailbox w) (insert_ne mail e (hang_up ch) j ne)),
      there,
      here_now,
    )

pub polling-insert :
    (n : ℕ) (w : ℕ → ℕ) (e u : ℕ) (running : ℕ → Option ℕ)
    → e < n
    → running e ≡ none
    → polling n w (insert running e u) ≡ polling n w running + w u
polling-insert n w e u running below free =
    let there : on_executor w (insert running e u e) ≡ w u =
      ap (on_executor w) (insert_self running e u) in
    let here_now : on_executor w (running e) ≡ 0 = rw free refl in
    omega (
      arith,
      total-update n e (λ j. on_executor w (running j)) (λ j. on_executor w (insert running e u j))
          below (λ j ne. ap (on_executor w) (insert_ne running e u j ne)),
      there,
      here_now,
    )

pub polling-clear :
    (n : ℕ) (w : ℕ → ℕ) (e u : ℕ) (running : ℕ → Option ℕ)
    → e < n
    → running e ≡ some u
    → polling n w running ≡ polling n w (clear running e) + w u
polling-clear n w e u running below held =
    let there : on_executor w (clear running e e) ≡ 0 = ap (on_executor w) (clear_self running e) in
    let here_now : on_executor w (running e) ≡ w u = rw held refl in
    omega (
      arith,
      total-update n e (λ j. on_executor w (running j)) (λ j. on_executor w (clear running e j))
          below (λ j ne. ap (on_executor w) (clear_ne running e j ne)),
      there,
      here_now,
    )

-- The waiting tasks that `first_live` passes over.
abbrev pub skipped : (ℕ → Bool) → (ℕ → ℕ) → List ℕ → ℕ
skipped aborted w [] = 0
skipped aborted w (u ∷ us) = let rest = skipped aborted w us in if aborted u then w u + rest else 0

abbrev pub found_and_left : (ℕ → ℕ) → Option (ℕ × List ℕ) → ℕ
found_and_left w none = 0
found_and_left w (some (u, rest)) = w u + tally w rest

pub tally-first_live :
    (aborted : ℕ → Bool) (w : ℕ → ℕ) (ts : List ℕ)
    → tally w ts ≡ found_and_left w (first_live aborted ts) + skipped aborted w ts
unfolding first_live
tally-first_live aborted w [] = refl
tally-first_live aborted w (u ∷ us) = elim (Bool-cases (aborted u)) [
  | inl dead ↦ rw dead (omega (arith, tally-first_live aborted w us))
  | inr live ↦ rw live (omega arith)
]

pub skipped-live :
    (aborted : ℕ → Bool) (t : ℕ) (w : ℕ → ℕ) (ts : List ℕ)
    → Counts t w
    → aborted t ≡ false
    → skipped aborted w ts ≡ 0
skipped-live aborted t w [] counts live = refl
skipped-live aborted t w (u ∷ us) counts live = elim (Bool-cases (u == t)) [
  | inl same ↦
      let e : u ≡ t = ground arith in
      let live_too : aborted u ≡ false = ap aborted e ∙ live in rw live_too refl
  | inr other ↦ elim (Bool-cases (aborted u)) [
    | inl dead ↦
        rw dead (omega (arith, skipped-live aborted t w us counts live, counts u (ground arith)))
    | inr spared ↦ rw spared refl
  ]
]
