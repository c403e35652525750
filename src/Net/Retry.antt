-- ===== src/Net/Retry.antt =====
-- src/net/tcp/listener.rs `accept`, src/net/tcp/stream.rs `read` and `write`, src/net/udp.rs
-- `send_to` and `recv_from`: a call that is tried again when the reactor tells of an event on the
-- socket's token. `W` is what the calls change outside the runtime.
use min_async_runtime.Base.{
  ℕ, zero, suc, Bool, true, false, List, [], ◌∷◌, length, if◌then◌else◌, returned, exhausted,
}
use min_async_runtime.Base.Monad.{M, pure, ◌>>=◌, ◌>>◌, modify, on}
use min_async_runtime.Base.Future.{Poll, pending, ready, Result, ok, err}
use min_async_runtime.Reactor.{
  Reactor, Status, awaited, happened, poll_entry, handle_event, has_token_progressed, waker_token,
  token_event,
}
use min_async_runtime.Reactor
use min_async_runtime.Net.Offload.{Registered, register_socket}

-- What the system's call comes to.
pub data Attempt (V E : Type 0) : Type 0 where
  got : V → Attempt V E
  would_block : Attempt V E
  failed : E → Attempt V E

-- The `async fn`, which is at its call or waits for the reactor.
pub record Retry (W : Type 0) : Type 0 where
  pub waits : Bool
  pub world : W
  pub reactor : Reactor

-- The loop makes at most two calls in one poll, and one more for each event that comes meanwhile.
abbrev pub calls_in_poll : List Bool → ℕ
calls_in_poll events = suc (suc (length events))

module _ {W V V' E : Type 0} (call : W → Attempt V E × W) (finish : V → W → Result V' E × W)
    (token : ℕ) where
  abbrev pub make_call : M (Retry W) (Attempt V E)
  make_call r = let (a, w) = call r.world in returned a (record r { world = w })

  abbrev pub make_finish : V → M (Retry W) (Result V' E)
  make_finish v r = let (res, w) = finish v r.world in returned res (record r { world = w })

  -- `Reactor::get().poll(self.token, cx)`
  abbrev pub poll_token : ℕ → M (Retry W) (Poll (Unit {0}))
  poll_token waker r =
      let (p, reactor) = Reactor.poll token waker r.reactor in
      returned p (record r { reactor = reactor })

  abbrev pub set_waits : Bool → M (Retry W) (Unit {0})
  set_waits b = modify (λ r. record r { waits = b })

  -- The `poll_fn(..).await`, and what follows when it is ready.
  abbrev pub after_poll :
      M (Retry W) (Poll (Result V' E)) → Poll (Unit {0}) → M (Retry W) (Poll (Result V' E))
  after_poll again pending = do set_waits true; pure pending
  after_poll again (ready u) = do set_waits false; again

  abbrev pub await_event : M (Retry W) (Poll (Result V' E)) → ℕ → M (Retry W) (Poll (Result V' E))
  await_event again waker = do p ← poll_token waker; after_poll again p

  abbrev pub after_call :
      M (Retry W) (Poll (Result V' E)) → ℕ → Attempt V E → M (Retry W) (Poll (Result V' E))
  after_call again waker (got v) = do res ← make_finish v; pure (ready res)
  after_call again waker would_block = await_event again waker
  after_call again waker (failed e) = pure (ready (err e))

  -- Whether the reactor's thread stores an event on the token at this point.
  abbrev pub store_event : Bool → M (Retry W) (Unit {0})
  store_event false = pure tt
  store_event true = do
    on (λ r. r.reactor) (λ reactor r. record r { reactor = reactor }) (token_event token)
    pure tt

  -- The `loop`, on fuel. The lock on the statuses is held only in the poll of the reactor: the list
  -- says for each turn whether the reactor's thread stores an event on the token between the last
  -- poll of the reactor and the next. Whom that wakes is not followed. When the list has ended no
  -- more events come.
  unfoldable pub retry_loop : ℕ → List Bool → ℕ → M (Retry W) (Poll (Result V' E))
  retry_loop zero events waker r = exhausted
  retry_loop (suc fuel) [] waker r =
      (do a ← make_call; let again = retry_loop fuel [] waker; after_call again waker a) r
  retry_loop (suc fuel) (event ∷ events) waker r =
      (do
        a ← make_call
        store_event event
        let again = retry_loop fuel events waker
        after_call again waker a)
        r

  -- A poll of the `async fn`.
  unfoldable pub poll_retry : List Bool → ℕ → M (Retry W) (Poll (Result V' E))
  poll_retry events waker r =
      if r.waits
      then await_event (retry_loop (calls_in_poll events) events waker) waker r
      else retry_loop (calls_in_poll events) events waker r

module _ {W E : Type 0} where
  -- `HoochTcpStream::read`, for a buffer; the number of bytes.
  abbrev pub poll_read : (W → Attempt ℕ E × W) → ℕ → List Bool → ℕ → M (Retry W) (Poll (Result ℕ E))
  poll_read read = poll_retry read (λ num w. (ok num, w))

  -- `HoochTcpStream::write`
  abbrev pub poll_write :
      (W → Attempt ℕ E × W) → ℕ → List Bool → ℕ → M (Retry W) (Poll (Result ℕ E))
  poll_write write = poll_retry write (λ num w. (ok num, w))

  -- `HoochUdpSocket::send_to`
  abbrev pub poll_send_to :
      (W → Attempt ℕ E × W) → ℕ → List Bool → ℕ → M (Retry W) (Poll (Result ℕ E))
  poll_send_to send_to = poll_retry send_to (λ value w. (ok value, w))

  -- `HoochUdpSocket::recv_from`; the number of bytes and the sender.
  abbrev pub poll_recv_from :
      {A : Type 0}
      → (W → Attempt (ℕ × A) E × W)
      → ℕ
      → List Bool
      → ℕ
      → M (Retry W) (Poll (Result (ℕ × A) E))
  poll_recv_from recv_from = poll_retry recv_from (λ value w. (ok value, w))

-- What the calls of a listener change, and the counter of tokens.
pub record Accepting (W : Type 0) : Type 0 where
  pub outside : W
  pub next_token : ℕ

abbrev pub with_address :
    {S A E : Type 0} → A → Result (Registered S) E → Result (Registered S × A) E
with_address a (ok s) = ok (s, a)
with_address a (err e) = err e

module _ {W S A E : Type 0} (register : S → ℕ → Result (Unit {0}) E) where
  abbrev pub accept_call :
      (W → Attempt (S × A) E × W) → Accepting W → Attempt (S × A) E × Accepting W
  accept_call accept w = let (a, outside) = accept w.outside in (a, record w { outside = outside })

  -- The accepted stream gets a token and is registered.
  abbrev pub accept_finish : S × A → Accepting W → Result (Registered S × A) E × Accepting W
  accept_finish (s, a) w =
      let (res, counter) = register_socket register s w.next_token in
      (with_address a res, record w { next_token = counter })

  -- `HoochTcpListener::accept`
  abbrev pub poll_accept :
      (W → Attempt (S × A) E × W)
      → ℕ
      → List Bool
      → ℕ
      → M (Retry (Accepting W)) (Poll (Result (Registered S × A) E))
  poll_accept accept = poll_retry (accept_call accept) accept_finish
