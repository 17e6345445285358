-- ===== src/Lib.antt =====
-- FluxGate, a layer 4 TCP proxy: a main thread accepts clients and hands them to worker reactors;
-- a worker takes a backend of least load from the pool, connects to it without blocking, and
-- relays bytes between the two sockets as epoll reports their events, through one fixed buffer in
-- each direction; a checker thread probes the backends and takes them out of the choice and back.
--
-- Base: helpers on lists, Booleans, 64-bit words and results.
-- Buffer: `ByteBuffer` (include/fluxgate/ByteBuffer.h). `fill` is the copy of recv() into
-- `writeData()`. Content: the bytes that a buffer holds. Queue: the buffer as a bounded queue.
-- Backend, Pool: `Backend`, `BackendLease`, `BackendPool` (src/Backend.cpp, src/BackendPool.cpp).
-- A shared pointer to a backend is its index in the pool, as backends live as long as the pool;
-- name resolution is a parameter. Load, Choice, Least: the choice of `acquire`. System, Leases,
-- Formed, Runs: a pool, the leases that are alive, and the steps they can make in any order.
-- Each step is one call: the pool's mutex and the atomic counters make the steps of different
-- threads atomic, save that `Backend::release` reads its counter before it subtracts; the two
-- are one step here.
-- Metrics: the counters of src/Metrics.cpp, modulo 2 ^ 64. Snapshot: their text.
-- Health: `checkOnce` and the loop of `run` (src/HealthChecker.cpp). The result of each connect
-- and of each test of the running flag is an input. Hysteresis: one backend's probe machine.
-- Rounds: the checker as one such machine for each backend. Life: `start`, `stop`, `join` and the
-- thread, in any order; one step of the thread is one probe of a round or one test of `running_`.
-- Life.Stopped, Life.Joined: what follows a stop. Life.Round: its rounds beside `checkOnce`.
-- Io: the system calls that a session makes, as a kernel over any type of states. A lawful
-- kernel (`IsKernel`) receives at least one byte or reports the end, never more than the room
-- asked for; sends at most what it is given; and interrupts (EINTR) only as often as `signals`
-- says. The trace holds the bytes read and written, and the shutdowns, the latest first.
-- Session: `ProxySession` (include/fluxgate/ProxySession.h, src/ProxySession.cpp). Loops:
-- `readInto` and `writeFrom`, on fuel: the interruptions left, plus the bytes that can move,
-- plus one, which bound the passes (Loops.Reading, Loops.Writing). State: the session, the
-- connect's end, the timeouts, the events it asks for. Stages, Handler: `handleEvent`, whose
-- parts end it early or go on. Relay: the invariant of a session and its trace. Hangup, Ended,
-- Interest: further behaviours of the handler. Connect: what the end of the connect counts; Frames
-- and Loops.Books: what the other parts leave alone. Tests: runs on a scripted kernel.
-- Worker: src/Worker.cpp. Queue: `enqueue`, with the result of the write to the eventfd as input.
-- Sessions: `createSession`, `closeSession`, the end of a batch and `sweepIdleSessions`, with the
-- replies of connect and epoll_ctl as input; the order of an unordered map is that of a list, and
-- a session that leaves the maps is destroyed at once. Books, Runs: sequences of these steps.
-- Events: what the events of a session leave to its worker. Interest: the epoll set. Ready: an
-- event on a session's descriptor, `updateInterests`. Reactor: `drainQueue`, the loop of `run` and
-- its end, `start`, `stop`. A turn of the loop is one step; between turns come the acceptor's calls
-- of `enqueue` and the stop. `running_` as `drainQueue` reads it is input, as it may change then.
-- The lists `taken` and `closed` record the descriptors that a worker gets and closes. Served,
-- Created, Closed, Taken, Turns: the invariant. Stopped, Failed, Limit: the ends and the queue.
-- Cluster: the workers of src/main.cpp over one pool, which each meets as the others have left it,
-- and the checker's changes of health; a turn of one worker is one step. Shutdown: the loops that
-- stop and join the workers.
-- Acceptor: `selectWorker` and the accept loop of src/main.cpp; what accept4(), the socket option
-- and the counters of the workers return is input. Between two calls of accept4(), and between two
-- passes, a worker may take its queue, as `drainQueue` does. Ledger: where the descriptors go.
-- Serve: the main thread's loop of poll() around it.
-- Config: the loader of src/Config.cpp. Text, Number: the texts, and `parseLong` with std::stol.
-- Assign, Loader: one key, one line, the file, given as its lines (none, if it does not open). An
-- error that is thrown is an `err` of what its message names. Valid: what a loaded file satisfies.
-- UniqueFd: include/fluxgate/UniqueFd.h. Ledger: where the descriptors go.
-- Decimal: `std::to_string` of a number, on fuel: a number has fewer digits than its successor.
-- Logger: include/fluxgate/Logger.h, src/Logger.cpp. What strftime() and vfprintf() print is input.
-- Net: src/Net.cpp over an interface of the system calls, with the one law that poll() is
-- interrupted finitely often; `waitForConnect` polls once more than that. getaddrinfo() and
-- inet_ntop() are parameters. Address: the addresses. Sockets: the sockets, each in the scope of
-- its owner. Balance, Listening, Polling, Waiting, Resolved: what they leave open and answer.
-- Health.Probes: `checkOnce` with the probes that it makes through Net.
-- Program: the options of src/main.cpp, and its start up to the listening socket; the lines of a
-- file are a parameter. Start: what the program has when it serves.
--
-- Bytes are numbers, and their values are never looked at. A size, an index, a counter is a number
-- below 2 ^ 64, with the wrap-around of the machine written out. Times are numbers of the clock
-- that the kernel parameter gives. The lines that the other
-- parts log are left out.
--
-- Not modelled: the signals, the statistics thread and the catch of what ends `main` in
-- src/main.cpp; the text of errors' numbers.
mod Base
pub mod Buffer
pub mod Backend
pub mod Pool
pub mod Metrics
pub mod Health
pub mod Io
pub mod Session
pub mod UniqueFd
pub mod Config
pub mod Worker
pub mod Acceptor
pub mod Decimal
pub mod Logger
pub mod Net
pub mod Program
pub mod Cluster
