-- ===== src/Channel.antt =====
-- src/sync/mpsc/bounded_channel.rs: one bounded channel with the reactor that it registers with.
pub mod Laws
pub mod Wake
pub mod Close
pub mod Uses
pub mod Carry
pub mod Fifo
mod Tests
use min_async_runtime.Base.{
  ℕ, ◌+◌, ◌-◌, Bool, true, false, List, [], ◌∷◌, Option, none, some, ◌==◌, if◌then◌else◌, add_usize,
  sub_usize, Exit, returned, panicked, blocked,
}
use min_async_runtime.Base.Monad.{M, pure, ◌>>=◌, ◌>>◌, get, modify, on}
use min_async_runtime.Base.Future.{Poll, pending, ready, Result, ok, err}
use min_async_runtime.Mpsc.{
  Mpsc, sync_channel, Sent, sent, full, disconnected, Received, received, empty, hung_up,
}
use min_async_runtime.Mpsc
use min_async_runtime.Reactor.{
  Reactor, generate_reactor_tag, register_reactor_tag, store_waker_channel, remove_tag,
}

-- What the senders and the receiver share, the reactor, and whether its `mio` waker has been woken.
pub record Channel (T : Type 0) : Type 0 where
  pub chan : Mpsc T
  pub queue_cnt : ℕ
  pub clone_count : ℕ
  pub reactor_tag : ℕ
  pub reactor : Reactor
  pub notified : Bool

-- `RecvError`, and the two cases of `TryRecvError`.
pub data RecvError : Type 0 where
  recv_error : RecvError

pub data TryRecvError : Type 0 where
  try_empty try_disconnected : TryRecvError

module _ {T : Type 0} where
  -- The new channel, and the counter of reactor tags after it.
  unfoldable pub bounded_channel : ℕ → ℕ → Reactor → Channel T × ℕ
  unfolding generate_reactor_tag
  bounded_channel bound counter reactor =
      let (tag, counter') = generate_reactor_tag counter in
      (
        record {
          chan = sync_channel bound;
          queue_cnt = 0;
          clone_count = 1;
          reactor_tag = tag;
          reactor = reactor;
          notified = false;
        },
        counter',
      )

  abbrev pub with_reactor : Reactor → Channel T → Channel T
  with_reactor r c = record c { reactor = r }

  -- What `send` does once the inner sender has taken the value.
  abbrev pub announce : M (Channel T) (Result (Unit {0}) T)
  announce = do
    modify (λ c. record c { queue_cnt = add_usize c.queue_cnt 1 })
    c ← get
    on (λ c'. c'.reactor) with_reactor (register_reactor_tag c.reactor_tag)
    modify (λ c'. record c' { notified = true })
    pure (ok tt)

  abbrev pub after_send : T → Channel T → Sent T → Exit (Channel T) (Result (Unit {0}) T)
  after_send val c (sent ch) = announce (record c { chan = ch })
  after_send val c full = blocked
  after_send val c disconnected = returned (err val) c

  unfoldable pub send : T → M (Channel T) (Result (Unit {0}) T)
  send val c = after_send val c (Mpsc.send c.chan val)

  -- `Clone for BoundedSender`
  unfoldable pub clone : Channel T → Channel T
  clone c = record c {
    clone_count = add_usize c.clone_count 1;
    chan = record c.chan { senders = c.chan.senders + 1 };
  }

  -- `Drop for BoundedSender`: `fetch_sub` gives the count from before. The inner sender is dropped
  -- with the fields.
  unfoldable pub drop : Channel T → Channel T
  drop c =
      let count = c.clone_count in
      let reactor = if count == 0 then remove_tag c.reactor_tag c.reactor else c.reactor in
      record c {
        clone_count = sub_usize count 1;
        reactor = reactor;
        chan = record c.chan { senders = c.chan.senders - 1 };
      }

  -- `self.rx.try_recv().map_err(|_| RecvError)`, and the count that follows it.
  abbrev pub after_recv : Channel T → Received T → Poll (Result T RecvError) × Channel T
  after_recv c (received v ch) =
      (ready (ok v), record c { chan = ch; queue_cnt = sub_usize c.queue_cnt 1 })
  after_recv c empty = (ready (err recv_error), c)
  after_recv c hung_up = (ready (err recv_error), c)

  -- `poll_recv`; `recv` polls it until it is ready.
  unfoldable pub poll_recv : ℕ → Channel T → Poll (Result T RecvError) × Channel T
  poll_recv waker c =
      if c.queue_cnt == 0
      then (pending, record c { reactor = store_waker_channel c.reactor_tag waker c.reactor })
      else after_recv c (Mpsc.try_recv c.chan)

  abbrev pub after_try_recv : Channel T → Received T → Result T TryRecvError × Channel T
  after_try_recv c (received v ch) = (ok v, record c { chan = ch })
  after_try_recv c empty = (err try_empty, c)
  after_try_recv c hung_up = (err try_disconnected, c)

  unfoldable pub try_recv : Channel T → Result T TryRecvError × Channel T
  try_recv c = after_try_recv c (Mpsc.try_recv c.chan)
