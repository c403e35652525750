-- ===== src/Lib.antt =====
-- A model of hooch, a small asynchronous runtime in Rust, with what makes it correct.
--
-- How the program works. `RuntimeBuilder::build` starts a number of executor threads. Each has a
-- channel of its own, and is registered with the task manager, which keeps two ring buffers: tasks
-- that wait for an executor and executors that wait for a task. A spawn or a wake hands a task to
-- the manager, which sends it to an idle executor or queues it; an executor polls the task's future
-- once and tells the manager that it is ready again. A future that is pending has left its waker
-- with the reactor, a thread that waits for `mio` events: the event of a token (a socket, a timer)
-- wakes the waker stored for the token; the event of `mio`'s own waker wakes the wakers of all tags
-- that were registered since (channels, files). Blocking calls are handed to a pool of threads.
--
-- The files, with the sources they model (paths from the repository's root):
-- - Base: shared types, tests on numbers, lists, the effects of a call, and the state monad.
-- - Ring: src/utils/ring_buffer.rs. Ring.Atomic and Ring.Races take `push` and `pop` apart into
--   their accesses of shared memory, and run several threads under a schedule.
-- - Mpsc: `std::sync::mpsc::sync_channel`, which the other modules use.
-- - Manager: src/task/manager.rs. Manager.Board is what it promises, Manager.System the steps of
--   spawning threads, wakers and executors, Manager.Boot the registration loop of `build`,
--   Manager.Accounts what is counted in a run, and Manager.Work what the executors have left to do.
--   Manager.Overlap takes the calls apart, for threads that call the manager at once.
-- - Executor: src/executor.rs and src/task/task.rs, and the executors' threads of src/runtime.rs.
--   Executor.Lock has the executors as threads that wait for the mutex round a task's future, and
--   Executor.Waker has what the raw wakers do to the reference count of a task.
-- - Reactor: src/reactor.rs.
-- - Channel: src/sync/mpsc/bounded_channel.rs. Channel.Wake takes `poll_recv` apart into its
--   accesses; Channel.Uses runs any sequence of uses of one channel.
-- - Spawner: src/spawner.rs. Spawner.Boxed has the result in its `Box<dyn Any>`.
-- - Pool: src/pool/thread_pool.rs. Pool.Races takes `get_and_update_index` apart into its accesses.
-- - Time.Sleep and Time.Timeout: src/time/sleep.rs and src/time/timeout.rs. Time.Race has a sleep
--   under a timeout.
-- - Fs: src/fs/file.rs.
-- - Net.Offload: the futures of `bind` and `connect` in src/net/tcp/listener.rs and
--   src/net/tcp/stream.rs, and `bind` of src/net/udp.rs. Net.Retry: `accept`, `read`, `write`,
--   `send_to` and `recv_from`.
-- - Runtime: src/runtime.rs, from the thread that builds the runtime. Runtime.Worker has what
--   `build` sends to the executors' threads, and their cells; Runtime.Blocking and Runtime.Spawning
--   put it together with the executors of its workers, among which Executor.Drive has a task go
--   round, Runtime.Sequence has calls of `run_blocking` one after the other, and Runtime.Reports a
--   call after one that has panicked.
-- - Ring.UnitTests, Pool.UnitTests, Runtime.UnitTests and Time.UnitTests: unit tests of the source.
-- The modules keep the names of the functions; a method is a function on the record of its type.
--
-- How the code is modelled. A call is a function from the state to an `Exit`: it returns, panics,
-- waits for another thread (`blocked`), runs out of the model's fuel (`exhausted`), or is undefined
-- behaviour (`faulted`). A lock is held for a whole call, so that a call under a lock is one step.
-- The manager has no lock: one call is one step except in Manager.Overlap, so that what is said of
-- a run elsewhere is said of runs in which no two calls of the manager overlap. In Manager.Overlap
-- one use of a ring buffer is a step, and no two uses of one overlap; Ring.Races has what the
-- accesses inside it do to each other. Atomic accesses are sequentially consistent, and `usize` has
-- 64 bits. A task stands for its `Arc`, by a number, and its waker for the task; only Executor.Waker
-- has reference counts. The manager lives as long as its tasks. The values in a ring buffer are not
-- of size zero, so that the vector's capacity is its length. Tasks are polled under any `poll`: it
-- is an argument, and says which tasks it wakes and whether it is pending, ready, or panics.
--
-- The poll of a socket's future is not one step: in Net.Retry the reactor's thread may store events
-- between the calls, and in Net.Offload a job stores its result before it wakes.
--
-- Loops. `executor_ready` and the reactor's waker event run on fuel: one more round than there are
-- entries in the buffer, which is enough since each round takes one out. A call that is tried again
-- runs on fuel for two calls and one more for each turn of its loop in which an event may come,
-- which is enough since the poll of the reactor in between uses the token's event up. The loops of
-- executors, of the reactor and of the pool's threads have no end: one round of each is a function,
-- and any number of rounds is a relation, a list of events, or `run` for a number of messages.
--
-- What is not modelled. `mio`, `nix` and the operating system are arguments, by what they answer.
-- Drops of sockets and timers, `Debug` and `Display`, and the messages that are printed have no
-- counterpart. The start of the reactor's thread is not modelled. src/blocker.rs and src/select.rs
-- are commented out. Of the unit tests, those with a name of a thread, a second thread or an atomic
-- counter are left out.
pub mod Base
pub mod Ring
pub mod Mpsc
pub mod Manager
pub mod Executor
pub mod Reactor
pub mod Channel
pub mod Spawner
pub mod Pool
pub mod Time
pub mod Fs
pub mod Net
pub mod Runtime
