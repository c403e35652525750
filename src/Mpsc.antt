-- ===== src/Mpsc.antt =====
-- `std::sync::mpsc::sync_channel`, as far as the runtime uses it: a queue of at most `bound`
-- messages, how many senders are alive, and whether the receiver is. A `send` on a full channel
-- waits; a channel of bound 0 has no place for a message, so a `send` on it waits for a receiver.
use min_async_runtime.Base.{ℕ, Bool, true, List, [], ◌∷◌, ◌++◌, length, ltb, ◌==◌, if◌then◌else◌}

pub record Mpsc {ℓ} (A : Type ℓ) : Type ℓ where
  pub queue : List A
  pub bound : ℕ
  pub senders : ℕ
  pub receiver : Bool

pub data Sent {ℓ} (A : Type ℓ) : Type ℓ where
  sent : Mpsc A → Sent A
  full disconnected : Sent A

pub data Received {ℓ} (A : Type ℓ) : Type ℓ where
  received : A → Mpsc A → Received A
  empty hung_up : Received A

module _ {ℓ} {A : Type ℓ} where
  abbrev pub sync_channel : ℕ → Mpsc A
  sync_channel bound = record { queue = []; bound = bound; senders = 1; receiver = true }

  -- `SyncSender::send`; `full` is where it waits.
  abbrev pub send : Mpsc A → A → Sent A
  send ch a =
      if ch.receiver
      then if ltb (length ch.queue) ch.bound
        then sent (record ch { queue = ch.queue ++ a ∷ [] })
        else full
      else disconnected

  abbrev pub receive : List A → Mpsc A → Received A
  receive [] ch = if ch.senders == 0 then hung_up else empty
  receive (a ∷ q) ch = received a (record ch { queue = q })

  -- `Receiver::try_recv`; `Receiver::recv` waits where this is `empty`.
  abbrev pub try_recv : Mpsc A → Received A
  try_recv ch = receive ch.queue ch
