-- ===== src/Manager/Once.antt =====
-- Every task that src/task/manager.rs accepts is polled as often as it was accepted.
use min_async_runtime.Base.{
  ℕ, ◌+◌, ◌<◌, ◌≡◌, refl, inl, inr, Bool, List, [], ◌∷◌, Option, none, some, if◌then◌else◌,
  Bool-cases, arith,
}
use min_async_runtime.Mpsc.{Mpsc}
use min_async_runtime.Manager.{ExecutorTask}
use min_async_runtime.Manager.Board.{Board, first_live, settle, assign, after_submit}
use min_async_runtime.Manager.Refine.{board}
use min_async_runtime.Manager.System.{
  System, Step, submit, refuse, receive, finish, ends, Reach, here, next, Inv,
}
use min_async_runtime.Manager.Moves.{
  idle_live, polling_live, polling-empty, channel_below, idle_below, polling_below, can_receive,
}
use min_async_runtime.Manager.Invariant.{
  ends_step, submit_step, refuse_step, receive_step, finish_step,
}
use min_async_runtime.Manager.Accounts.{
  mailed, polling, accepts, completes, Spares, accepted, completed, NeverAborted, mailed-post,
  mailed-insert, mailed-hang_up, messages_zero, polling-insert, polling-clear, skipped,
  skipped-live, found_and_left, tally-first_live, tally, tally-append, Counts,
}

-- What waits in the queue or in a mailbox.
abbrev held : ℕ → (ℕ → ℕ) → Board → ℕ
held n w b = tally w b.tasks + mailed n w b.mail

held-assign :
    {n cap : ℕ} (s : System) (ts es : List ℕ) (mail : ℕ → Option (Mpsc ExecutorTask)) (u : ℕ)
    (w : ℕ → ℕ)
    → n < cap
    → Inv n cap s (board ts es mail)
    → held n w (assign u (board ts es mail)) ≡ held n w (board ts es mail) + w u
held-assign s ts [] mail u w small v = omega (arith, tally-append w ts u)
held-assign {n} s ts (e ∷ es) mail u w small v =
    let below : e < n = idle_below small v e (ground arith) in
    let (ch, found, _, _, _) = v.seated e below (idle_live small v e (ground arith)) in
    omega (arith, mailed-post n w e u mail ch below found)

held-submit :
    {n cap : ℕ} (s : System) (b : Board) (aborted : ℕ → Bool) (u : ℕ) (w : ℕ → ℕ)
    → n < cap
    → Inv n cap s b
    → held n w (after_submit aborted u b) ≡ held n w b + (if aborted u then 0 else w u)
held-submit s b aborted u w small v = elim (Bool-cases (aborted u)) [
  | inl dead ↦ rw (dead, after_submit) (omega arith)
  | inr live ↦ rw (live, after_submit) (held-assign s b.tasks b.idle b.mail u w small v)
]

held-settle :
    (n : ℕ) (w : ℕ → ℕ) (e : ℕ) (next : Option (ℕ × List ℕ)) (b : Board) (ch : Mpsc ExecutorTask)
    → e < n
    → b.mail e ≡ some ch
    → held n w (settle e next b.idle b.mail) ≡ found_and_left w next + mailed n w b.mail
held-settle n w e none b ch below found = omega arith
held-settle n w e (some (u, rest)) b ch below found =
    omega (arith, mailed-post n w e u b.mail ch below found)

-- What is somewhere in the system: queued, in a mailbox, or being polled.
abbrev pub under_way : ℕ → (ℕ → ℕ) → System → Board → ℕ
under_way n w s b = tally w b.tasks + mailed n w b.mail + polling n w s.running

-- One step from a system that shows `b`: `dropped` is what the step discards.
abbrev Account : {s u : System} → ℕ → ℕ → (ℕ → ℕ) → Board → Step s u → Type 0
Account {s} {u} n cap w b step =
    (b' : Board) × Inv n cap u b'
    × (dropped : ℕ) × ((t : ℕ) → Counts t w → Spares t step → dropped ≡ 0)
    × (under_way n w u b' + completes step w + dropped ≡ under_way n w s b + accepts step w)

Step-Account :
    {n cap : ℕ} {s u : System} {b : Board} (w : ℕ → ℕ) (step : Step s u)
    → n < cap
    → Inv n cap s b
    → Account n cap w b step
Step-Account {s} {b} w (submit aborted v m h) small inv = (
  _,
  submit_step small inv aborted v m h,
  0,
  λ t counts spares. refl,
  omega (arith, held-submit s b aborted v w small inv),
)
Step-Account w (refuse aborted v m h) small inv =
    (_, refuse_step small inv aborted v m h, 0, λ t counts spares. refl, omega arith)
Step-Account {n} {s} {b} w (receive e v ch q free found head) small inv =
    let found' : b.mail e ≡ some ch = rw inv.shown.mailed at found in
    let below : e < n = channel_below small inv e ch found' in
    (
      _,
      receive_step small inv e v ch q free found head,
      0,
      λ t counts spares. refl,
      omega (
        arith,
        mailed-insert n w e v b.mail ch q below found' head,
        polling-insert n w e v s.running below free,
      ),
    )
Step-Account {n} {s} {b} w (finish aborted e v m polls h) small inv =
    let below : e < n = polling_below small inv e v polls in
    let (ch, found, _, _) = can_receive small inv e below (polling_live small inv e v polls) in
    (
      _,
      finish_step small inv aborted e v m polls h,
      skipped aborted w b.tasks,
      λ t counts spares. skipped-live aborted t w b.tasks counts spares,
      omega (
        arith,
        tally-first_live aborted w b.tasks,
        held-settle n w e (first_live aborted b.tasks) b ch below found,
        polling-clear n w e v s.running below polls,
      ),
    )
Step-Account {n} {s} {b} w (ends e v ch polls found) small inv =
    let found' : b.mail e ≡ some ch = rw inv.shown.mailed at found in
    let below : e < n = polling_below small inv e v polls in
    (
      _,
      ends_step small inv e v ch polls found,
      w v,
      λ t counts spares. counts v spares,
      omega (
        arith,
        mailed-hang_up n w e b.mail ch below found',
        messages_zero w ch.queue (polling-empty small inv e v ch polls found'),
        polling-clear n w e v s.running below polls,
      ),
    )

-- The same over a run of the system.
pub Reach-Account :
    {n cap : ℕ} {s u : System} {b : Board} (w : ℕ → ℕ) (r : Reach s u)
    → n < cap
    → Inv n cap s b
    → (b' : Board) × Inv n cap u b'
      × (dropped : ℕ) × ((t : ℕ) → Counts t w → NeverAborted t r → dropped ≡ 0)
      × (under_way n w u b' + completed r w + dropped ≡ under_way n w s b + accepted r w)
Reach-Account {b} w here small inv = (b, inv, 0, λ t counts never. refl, omega arith)
Reach-Account w (next r step) small inv =
    let (b₁, inv₁, dropped₁, kept₁, sum₁) = Reach-Account w r small inv in
    let (b₂, inv₂, dropped₂, kept₂, sum₂) = Step-Account w step small inv₁ in
    (
      b₂,
      inv₂,
      dropped₁ + dropped₂,
      λ t counts never. omega (arith, kept₁ t counts never.0, kept₂ t counts never.1),
      omega (arith, sum₁, sum₂),
    )
