-- ===== src/Channel/Uses.antt =====
-- src/sync/mpsc/bounded_channel.rs in use: any sequence of sends, receptions, clones, drops and turns
-- of the reactor on one channel, against a queue.
use min_async_runtime.Base.{
  ℕ, ◌+◌, ◌-◌, ◌<◌, ◌≡◌, sym, ap, ◌∙◌, List, [], ◌∷◌, ◌++◌, usize_mod, returned,
}
use mathlib.Core.List.{append-nil, append_assoc}
use min_async_runtime.Base.Monad.{M, pure, ◌>>=◌, ◌>>◌, modify}
use min_async_runtime.Base.Future.{Poll, pending, ready, Result, ok, err}
use min_async_runtime.Channel.{Channel, RecvError, send, poll_recv, clone, drop}
use min_async_runtime.Channel.Wake.{reactor_turn}

-- A use of the channel: by a sender, by the receiver with its waker, or by the reactor's thread.
pub data Use (T : Type 0) : Type 0 where
  sends : T → Use T
  receives : ℕ → Use T
  clones drops turns : Use T

module _ {T : Type 0} where
  -- The value that a reception yields.
  abbrev pub taken : Poll (Result T RecvError) → List T
  taken pending = []
  taken (ready (ok x)) = x ∷ []
  taken (ready (err e)) = []

  -- One use; the list is what the receiver got.
  abbrev pub use_once : Use T → M (Channel T) (List T)
  use_once (sends x) = do send x; pure []
  use_once (receives waker) = λ c. returned (taken (poll_recv waker c).0) (poll_recv waker c).1
  use_once clones = do modify clone; pure []
  use_once drops = do modify drop; pure []
  use_once turns = do reactor_turn; pure []

  unfoldable pub use_all : List (Use T) → M (Channel T) (List T)
  use_all [] = pure []
  use_all (u ∷ us) = do xs ← use_once u; ys ← use_all us; pure (xs ++ ys)

  -- The values sent.
  unfoldable pub sent_values : List (Use T) → List T
  sent_values [] = []
  sent_values (sends x ∷ us) = x ∷ sent_values us
  sent_values (receives waker ∷ us) = sent_values us
  sent_values (clones ∷ us) = sent_values us
  sent_values (drops ∷ us) = sent_values us
  sent_values (turns ∷ us) = sent_values us

  -- A queue that holds `q` under the same uses: what is received, and what is left.
  unfoldable pub queue_run : List T → List (Use T) → List T × List T
  queue_run q [] = ([], q)
  queue_run q (sends x ∷ us) = queue_run (q ++ x ∷ []) us
  queue_run [] (receives waker ∷ us) = queue_run [] us
  queue_run (x ∷ q) (receives waker ∷ us) = let (xs, left) = queue_run q us in (x ∷ xs, left)
  queue_run q (clones ∷ us) = queue_run q us
  queue_run q (drops ∷ us) = queue_run q us
  queue_run q (turns ∷ us) = queue_run q us

-- Each send finds room in a channel of `bound` places and in the reactor's buffer of `cap` tags, and
-- only senders that are there are cloned or dropped. At first the channel holds `k` values, the
-- buffer `j` tags, and there are `s` senders.
abbrev pub Room : {T : Type 0} → ℕ → ℕ → ℕ → ℕ → ℕ → List (Use T) → Type 0
Room bound cap k j s [] = Unit
Room bound cap k j s (sends x ∷ us) =
    (k < bound) × (j < cap) × (0 < s) × Room bound cap (k + 1) (j + 1) s us
Room bound cap k j s (receives waker ∷ us) = Room bound cap (k - 1) j s us
Room bound cap k j s (clones ∷ us) = (0 < s) × (s + 1 < usize_mod) × Room bound cap k j (s + 1) us
Room bound cap k j s (drops ∷ us) = (0 < s) × Room bound cap k j (s - 1) us
Room bound cap k j s (turns ∷ us) = Room bound cap k 0 s us

module _ {T : Type 0} where
  pub queue_run-conserves :
      (us : List (Use T)) (q : List T)
      → (queue_run q us).0 ++ (queue_run q us).1 ≡ q ++ sent_values us
  unfolding queue_run sent_values
  queue_run-conserves [] q = sym (append-nil q)
  queue_run-conserves (sends x ∷ us) q =
      queue_run-conserves us (q ++ x ∷ []) ∙ append_assoc q (x ∷ []) (sent_values us)
  queue_run-conserves (receives waker ∷ us) [] = queue_run-conserves us []
  queue_run-conserves (receives waker ∷ us) (x ∷ q) = ap (λ l. x ∷ l) (queue_run-conserves us q)
  queue_run-conserves (clones ∷ us) q = queue_run-conserves us q
  queue_run-conserves (drops ∷ us) q = queue_run-conserves us q
  queue_run-conserves (turns ∷ us) q = queue_run-conserves us q
