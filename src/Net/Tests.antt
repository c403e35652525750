-- ===== src/Net/Tests.antt =====
-- net/ at a pool of one thread, and at a socket that answers by a script.
use min_async_runtime.Base.{
  ℕ, ◌+◌, ◌≡◌, refl, true, false, List, [], ◌∷◌, Option, none, some, ◌==◌, if◌then◌else◌, returned,
  arith,
}
use min_async_runtime.Base.Future.{Poll, pending, ready, Result, ok, err}
use min_async_runtime.Mpsc.{Mpsc, sync_channel}
use min_async_runtime.Pool.{jobs_bound}
use min_async_runtime.Reactor.{
  Reactor, Status, awaited, happened, handle_event, has_token_progressed, unique_token, token_event,
}
use min_async_runtime.Reactor
use min_async_runtime.Reactor.Events.{Awaits}
use min_async_runtime.Net.Offload.{
  Job, stores, wakes, ended, Offload, poll_stream, take_job, job_step, run_thread, connect_result,
  connect_ready,
}
use min_async_runtime.Net.Connect.{poll_offload-run_thread}
use min_async_runtime.Net.Retry.{
  Attempt, got, would_block, Retry, poll_retry, poll_read, retry_loop,
}
use min_async_runtime.Net.Progress.{poll_retry_lem}

-- Port 0 does not resolve, and nobody listens at port 1.
abbrev resolve : ℕ → Option ℕ
resolve port = if port == 0 then none else some port

abbrev connect : ℕ → Result ℕ ℕ
connect port = if port == 1 then err 111 else ok (port + 1000)

abbrev set_nonblocking : ℕ → Result (Unit {0}) ℕ
set_nonblocking socket = ok tt

abbrev register : ℕ → ℕ → Result (Unit {0}) ℕ
register socket token = ok tt

abbrev inbox : Mpsc (Job ℕ)
inbox = sync_channel jobs_bound

abbrev offload_to : ℕ → Offload ℕ ℕ (Result ℕ ℕ)
offload_to port = record {
  addr = port;
  has_polled = false;
  state = none;
  pool = record { num_threads = 1; cursor = 0; senders = inbox ∷ [] };
  woken = [];
}

poll_offload-run_thread_example :
    (job : Job ℕ) × (o₁ o₂ o₃ o₄ : Offload ℕ ℕ (Result ℕ ℕ)) × (poll_stream resolve 8
        (offload_to 80)
      ≡ returned pending o₁)
    × (poll_stream resolve 9 o₁ ≡ returned pending o₁)
    × (take_job 0 o₁ ≡ returned (stores job) o₂)
    × (poll_stream resolve 9 o₂ ≡ returned pending o₂)
    × (job_step (connect_result connect set_nonblocking) (stores job) o₂ ≡ returned (wakes job) o₃)
    × (o₃.woken ≡ [])
    × (poll_stream resolve 9 o₃ ≡ returned (ready (ok 1080)) (record o₃ { state = none }))
    × (job_step (connect_result connect set_nonblocking) (wakes job) o₃ ≡ returned ended o₄)
    × (o₄.woken ≡ 8 ∷ [])
    × (poll_stream resolve 9 o₄ ≡ returned (ready (ok 1080)) (record o₄ { state = none }))
    × (run_thread (connect_result connect set_nonblocking) 0 o₁ ≡ returned tt o₄)
poll_offload-run_thread_example =
    poll_offload-run_thread resolve (offload_to 80) 8 inbox refl (λ h. cc) refl
      (connect_result connect set_nonblocking) 9 80 refl refl refl refl (omega arith)

-- A socket that has a token is registered, and the next token is the next number.
connect_ready_test :
    connect_ready register (ok 1080) 5 ≡ (ok (record { socket = 1080; token = 5 }), 6)
unfolding connect_ready unique_token
connect_ready_test = refl

-- Each call takes the next answer; after the last it would block.
abbrev read : List (Attempt ℕ ℕ) → Attempt ℕ ℕ × List (Attempt ℕ ℕ)
read [] = (would_block, [])
read (a ∷ answers) = (a, answers)

abbrev finish : ℕ → List (Attempt ℕ ℕ) → Result ℕ ℕ × List (Attempt ℕ ℕ)
finish num w = (ok num, w)

abbrev reactor_of : Option Status → Reactor
reactor_of status = record {
  reactor_tag_buffer = record { buffer = none ∷ none ∷ []; start = 0; end = 0; count = 0 };
  reactor_tags = λ t. none;
  statuses = λ token. if token == 3 then status else none;
}

abbrev reading : List (Attempt ℕ ℕ) → Option Status → Retry (List (Attempt ℕ ℕ))
reading answers status = record { waits = false; world = answers; reactor = reactor_of status }

-- The future after its first call.
abbrev blocked_read : Retry (List (Attempt ℕ ℕ))
blocked_read = record {
  waits = true;
  world = got 40 ∷ [];
  reactor = record (reactor_of none) {
    statuses = Reactor.insert (reactor_of none).statuses 3 (awaited 8);
  };
}

poll_read_test :
    poll_read read 3 [] 8 (reading (would_block ∷ got 40 ∷ []) none) ≡ returned pending blocked_read
unfolding poll_retry retry_loop Reactor.poll
poll_read_test = refl

-- The reactor's thread tells of an event after the first call and after the second.
poll_read_events_test :
    (r : Retry (List (Attempt ℕ ℕ))) × (poll_read read 3
        (true ∷ true ∷ [])
        8
        (reading (would_block ∷ would_block ∷ got 40 ∷ []) none)
      ≡ returned (ready (ok 40)) r)
unfolding poll_retry retry_loop Reactor.poll token_event
poll_read_events_test = (_, refl)

poll_retry_lem_example :
    (p : Poll (Result ℕ ℕ)) × (r' : Retry (List (Attempt ℕ ℕ))) × (poll_retry read finish 3
        (true ∷ false ∷ [])
        8
        (reading (would_block ∷ []) (some happened))
      ≡ returned p r')
    × (p ≡ pending → (r'.waits ≡ true) × Awaits r'.reactor 3 8)
poll_retry_lem_example =
    poll_retry_lem read finish 3 8 (true ∷ false ∷ []) (reading (would_block ∷ []) (some happened))
