-- ===== src/Fs.antt =====
-- src/fs/file.rs: `HoochFile` and the future that opens it. A file, an error, a path and the
-- options are any types; what the operating system answers is an argument.
pub mod Wake
mod Tests
use min_async_runtime.Base.{
  ℕ, Bool, true, false, List, [], ◌∷◌, ◌++◌, Option, none, some, if◌then◌else◌, Exit, returned,
  panicked,
}
use min_async_runtime.Base.Monad.{M, pure, ◌>>=◌, ◌>>◌, panic, modify, on}
use min_async_runtime.Base.Future.{Poll, pending, ready, Result, ok, err}
use min_async_runtime.Reactor.{
  Reactor, generate_reactor_tag, register_reactor_tag, store_waker_channel,
}
use min_async_runtime.Pool.{Pool, execute, work}

pub data FileOperation (O : Type 0) : Type 0 where
  create_file open_file : FileOperation O
  with_options : O → FileOperation O

-- `block_fn`: the operation and the path.
pub record FileJob (P O : Type 0) : Type 0 where
  pub operation : FileOperation O
  pub at : P

-- `HoochFile`
pub record HoochFile (H : Type 0) : Type 0 where
  pub handle : H

-- `AsyncHoochFile` with the state that it shares with its job, the pool, the reactor, and whether
-- the reactor's `mio` waker has been woken.
pub record Opening (P O H E : Type 0) : Type 0 where
  pub path : P
  pub file_operation : Option (FileOperation O)
  pub reactor_tag : ℕ
  pub file_handle : Option (Result (HoochFile H) E)
  pub has_polled : Bool
  pub pool : Pool (FileJob P O)
  pub reactor : Reactor
  pub notified : Bool

module _ {P O H E : Type 0} where
  abbrev pub with_pool : Pool (FileJob P O) → Opening P O H E → Opening P O H E
  with_pool pool f = record f { pool = pool }

  abbrev pub with_reactor : Reactor → Opening P O H E → Opening P O H E
  with_reactor r f = record f { reactor = r }

  abbrev pub register_tag : ℕ → M (Opening P O H E) (Unit {0})
  register_tag tag = on (λ f. f.reactor) with_reactor (register_reactor_tag tag)

  abbrev pub new_opening : FileOperation O → P → ℕ → Pool (FileJob P O) → Reactor → Opening P O H E
  new_opening operation path tag pool reactor = record {
    path = path;
    file_operation = some operation;
    reactor_tag = tag;
    file_handle = none;
    has_polled = false;
    pool = pool;
    reactor = reactor;
    notified = false;
  }

  -- `open_hooch`: a new tag, which is registered at once. With the counter of tags after it.
  unfoldable pub open_hooch :
      FileOperation O → P → ℕ → Pool (FileJob P O) → Reactor → Exit (Opening P O H E) (Unit {0}) × ℕ
  unfolding generate_reactor_tag
  open_hooch operation path counter pool reactor =
      let (tag, counter') = generate_reactor_tag counter in
      (register_tag tag (new_opening operation path tag pool reactor), counter')

  -- `HoochFile::open` up to the first poll of its `AsyncHoochFile`; it is an `async fn`, so that
  -- this happens when it is polled first.
  unfoldable pub hooch_open :
      P → ℕ → Pool (FileJob P O) → Reactor → Exit (Opening P O H E) (Unit {0}) × ℕ
  hooch_open = open_hooch open_file

  -- `HoochFile::create`, likewise.
  unfoldable pub hooch_create :
      P → ℕ → Pool (FileJob P O) → Reactor → Exit (Opening P O H E) (Unit {0}) × ℕ
  hooch_create = open_hooch create_file

  -- `self.file_operation.take().unwrap()`, and the job.
  abbrev pub offload : Option (FileOperation O) → M (Opening P O H E) (Unit {0})
  offload none = λ f. panicked f
  offload (some operation) = λ f.
      on (λ f'. f'.pool) with_pool (execute (record { operation = operation; at = f.path }))
        (record f { file_operation = none })

  abbrev pub start : ℕ → M (Opening P O H E) (Poll (Result (HoochFile H) E))
  start waker f =
      (do
        modify (λ f'. record f' { has_polled = true })
        register_tag f.reactor_tag
        modify (λ f'. record f' { reactor = store_waker_channel f'.reactor_tag waker f'.reactor })
        offload f.file_operation
        pure pending)
        f

  abbrev pub take_handle :
      Option (Result (HoochFile H) E) → M (Opening P O H E) (Poll (Result (HoochFile H) E))
  take_handle none = pure pending
  take_handle (some res) = do modify (λ f. record f { file_handle = none }); pure (ready res)

  -- `Future for AsyncHoochFile`
  unfoldable pub poll_file : ℕ → M (Opening P O H E) (Poll (Result (HoochFile H) E))
  poll_file waker f = if f.has_polled then take_handle f.file_handle f else start waker f

  module _ (create open_at : P → Result H E) (open_with : O → P → Result H E) where
    abbrev pub perform : FileOperation O → P → Result H E
    perform create_file path = create path
    perform open_file path = open_at path
    perform (with_options options) path = open_with options path

    -- `file_handle_result.map(|f| HoochFile { handle: f })`
    abbrev pub hooch_file : Result H E → Result (HoochFile H) E
    hooch_file (ok h) = ok (record { handle = h })
    hooch_file (err e) = err e

    -- A job at its end: the result is stored, then the reactor is woken.
    abbrev pub complete : Option (FileJob P O) → M (Opening P O H E) (Unit {0})
    complete none = pure tt
    complete (some job) = modify (λ f. record f {
      file_handle = some (hooch_file (perform job.operation job.at));
      notified = true;
    })

    -- Thread `w` of the pool runs its next job, which does not panic.
    unfoldable pub run_thread : ℕ → M (Opening P O H E) (Unit {0})
    run_thread w = do ran ← on (λ f. f.pool) with_pool (work (λ job. true) w); complete ran

-- `Future for AsyncReadToString`: what the file answers to `metadata` and to `read_to_string` are
-- two arguments, and an error of either is a panic inside `poll`.
abbrev pub poll_read_to_string :
    {Size S E : Type 0} → Result Size E → Result S E → M (Unit {0}) (Poll (Result S E))
poll_read_to_string (err e) contents = panic
poll_read_to_string (ok size) (err e) = panic
poll_read_to_string (ok size) (ok buffer) = pure (ready (ok buffer))

abbrev pub unwrap_contents : {S E : Type 0} → Poll (Result S E) → M (Unit {0}) (Poll S)
unwrap_contents pending = pure pending
unwrap_contents (ready (ok contents)) = pure (ready contents)
unwrap_contents (ready (err e)) = panic

-- A poll of `HoochFile::read_to_string`
unfoldable pub read_to_string :
    {Size S E : Type 0} → Result Size E → Result S E → M (Unit {0}) (Poll S)
read_to_string size contents = do res ← poll_read_to_string size contents; unwrap_contents res
