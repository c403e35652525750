-- ===== src/Net/Offload.antt =====
-- src/net/tcp/listener.rs and src/net/tcp/stream.rs: `AsyncHoochTcpListener` and
-- `AsyncHoochTcpStream`, the futures that leave a blocking call to the pool's threads. `S` is the
-- socket, `E` the error.
use min_async_runtime.Base.{
  false, Exit, ℕ, Bool, true, List, [], ◌∷◌, ◌++◌, Option, none, some, if◌then◌else◌, panicked,
}
use min_async_runtime.Base.Monad.{M, pure, ◌>>=◌, ◌>>◌, modify, on}
use min_async_runtime.Base.Future.{Poll, pending, ready, Result, ok, err}
use min_async_runtime.Reactor.{Reactor, generate_reactor_tag, register_reactor_tag, unique_token}
use min_async_runtime.Pool.{Pool, execute, work}

-- `connect_fn`: the address, and the waker to wake at the end.
pub record Job (A : Type 0) : Type 0 where
  pub socket_addr : A
  pub waker : ℕ

-- Where `connect_fn` stands: at the store of the result, at the wake, or at its end.
pub data JobPoint (A : Type 0) : Type 0 where
  stores : Job A → JobPoint A
  wakes : Job A → JobPoint A
  ended : JobPoint A

abbrev pub begun : {A : Type 0} → Option (Job A) → JobPoint A
begun none = ended
begun (some job) = stores job

-- The future with the state that it shares with its job, the pool, and the wakers that jobs have
-- woken, in order.
pub record Offload (D A R : Type 0) : Type 0 where
  pub addr : D
  pub has_polled : Bool
  pub state : Option R
  pub pool : Pool (Job A)
  pub woken : List ℕ

module _ {D A R : Type 0} where
  abbrev pub with_pool : Pool (Job A) → Offload D A R → Offload D A R
  with_pool pool o = record o { pool = pool }

  -- What `to_socket_addrs().unwrap().next().unwrap()` gives to the job.
  abbrev pub offload : ℕ → Option A → M (Offload D A R) (Unit {0})
  offload waker none = λ o. panicked o
  offload waker (some a) =
      on (λ o. o.pool) with_pool (execute (record { socket_addr = a; waker = waker }))

  -- The second half of `poll`: the shared state is taken.
  abbrev pub take_state : Option R → M (Offload D A R) (Poll R)
  take_state none = pure pending
  take_state (some r) = do modify (λ o. record o { state = none }); pure (ready r)

  -- `Future for AsyncHoochTcpListener`. `resolve` gives the first address, or `none` where one of
  -- the `unwrap`s panics.
  unfoldable pub poll_offload : (D → Option A) → ℕ → M (Offload D A R) (Poll R)
  poll_offload resolve waker o =
      if o.has_polled
      then take_state o.state o
      else (do
        modify (λ o'. record o' { has_polled = true })
        offload waker (resolve o.addr)
        pure pending)
          o

  -- Thread `w` of the pool takes its next job. What it does when it has none is not followed.
  unfoldable pub take_job : ℕ → M (Offload D A R) (JobPoint A)
  take_job w = do ran ← on (λ o. o.pool) with_pool (work (λ job. true) w); pure (begun ran)

  -- `connect_fn`, which does not panic: first the result is stored, then the waker is woken. The
  -- task may be polled between the two.
  unfoldable pub job_step : (A → R) → JobPoint A → M (Offload D A R) (JobPoint A)
  job_step result (stores job) = do
    modify (λ o. record o { state = some (result job.socket_addr) })
    pure (wakes job)
  job_step result (wakes job) = do
    modify (λ o. record o { woken = o.woken ++ job.waker ∷ [] })
    pure ended
  job_step result ended = pure ended

  -- Thread `w` runs its next job from the beginning to the end.
  unfoldable pub run_thread : (A → R) → ℕ → M (Offload D A R) (Unit {0})
  run_thread result w = do
    started ← take_job w
    stored ← job_step result started
    job_step result stored
    pure tt

-- `bind` of a listener up to the first poll of its future: a tag is registered, for which no waker
-- is ever stored. With the counter of tags after it.
unfoldable pub begin_bind :
    {D A R : Type 0} → D → Pool (Job A) → List ℕ → ℕ → Reactor → Exit Reactor (Offload D A R) × ℕ
unfolding generate_reactor_tag
begin_bind addr pool woken counter reactor =
    let (tag, counter') = generate_reactor_tag counter in
    (
      (do
        register_reactor_tag tag
        pure (record { addr = addr; has_polled = false; state = none; pool = pool; woken = woken }))
          reactor,
      counter',
    )

-- `connect` of a stream, likewise.
unfoldable pub begin_connect :
    {D A R : Type 0} → D → Pool (Job A) → List ℕ → ℕ → Reactor → Exit Reactor (Offload D A R) × ℕ
begin_connect = begin_bind

-- The closure `result`: the blocking call, then `set_nonblocking`, then `from_std`.
abbrev pub set_up : {S E : Type 0} → (S → Result (Unit {0}) E) → Result S E → Result S E
set_up set_nonblocking (err e) = err e
set_up set_nonblocking (ok s) = elim (set_nonblocking s) [ ok u ↦ ok s | err e ↦ err e ]

module _ {A S E : Type 0} where
  -- `Future for AsyncHoochTcpStream`
  abbrev pub poll_stream :
      {D : Type 0} → (D → Option A) → ℕ → M (Offload D A (Result S E)) (Poll (Result S E))
  poll_stream resolve = poll_offload resolve

  -- What the job of a listener binds.
  abbrev pub bind_result : (A → Result S E) → (S → Result (Unit {0}) E) → A → Result S E
  bind_result bind set_nonblocking a = set_up set_nonblocking (bind a)

  -- What the job of a stream connects.
  abbrev pub connect_result : (A → Result S E) → (S → Result (Unit {0}) E) → A → Result S E
  connect_result connect set_nonblocking a = set_up set_nonblocking (connect a)

-- A socket with its token.
pub record Registered (S : Type 0) : Type 0 where
  pub socket : S
  pub token : ℕ

module _ {S E : Type 0} (register : S → ℕ → Result (Unit {0}) E) where
  -- A new token, and the registration with `mio`; with the counter of tokens after it.
  abbrev pub register_socket : S → ℕ → Result (Registered S) E × ℕ
  register_socket s counter =
      let (token, counter') = unique_token counter in
      elim (register s token) [
        | ok u ↦ (ok (record { socket = s; token = token }), counter')
        | err e ↦ (err e, counter')
      ]

  -- `bind` of a listener, once its future is ready.
  unfoldable pub bind_ready : Result S E → ℕ → Result (Registered S) E × ℕ
  bind_ready (err e) counter = (err e, counter)
  bind_ready (ok s) counter = register_socket s counter

  -- `connect` of a stream, once its future is ready.
  unfoldable pub connect_ready : Result S E → ℕ → Result (Registered S) E × ℕ
  connect_ready (err e) counter = (err e, counter)
  connect_ready (ok s) counter = register_socket s counter

  -- `HoochUdpSocket::bind`, which blocks its caller.
  unfoldable pub bind_udp :
      {A : Type 0}
      → (A → Result S E)
      → (S → Result (Unit {0}) E)
      → A
      → ℕ
      → Result (Registered S) E × ℕ
  bind_udp bind set_nonblocking addr counter = elim (set_up set_nonblocking (bind addr)) [
    | ok s ↦ register_socket s counter
    | err e ↦ (err e, counter)
  ]
