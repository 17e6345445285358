-- ===== src/Worker/Reactor.antt =====
-- The thread of a worker (src/Worker.cpp): `Worker::run`, `drainQueue`, `start`, `stop`, with the
-- acceptor's calls of `enqueue` in between. A turn of the loop is one step.
pub mod Served
pub mod Created
pub mod Closed
pub mod Taken
pub mod Turns
pub mod Stopped
pub mod Failed
pub mod Limit
pub mod Tests
use flux_gate.Base.{ℕ, Bool, true, false, not, List, [], ◌∷◌, ◌-◌, leb, ◌==◌, if◌then◌else◌}
use flux_gate.Io.{Kernel}
use flux_gate.Session.State.{Events, Session}
use flux_gate.Worker.Queue.{AcceptedClient, Inbox, WakeReply, enqueue}
use flux_gate.Worker.Sessions.{
  Worker, ConnectReply, create_session, close_sessions, close_ended, sweep_sessions,
}
use flux_gate.Worker.Ready.{serve_fd}

-- The constants of a worker: its eventfd, the size of the buffers, the two timeouts and a second in
-- the clock's unit.
pub record Setup : Type 0 where
  pub wake_fd : ℕ
  pub buffer_size : ℕ
  pub connect_limit : ℕ
  pub idle_limit : ℕ
  pub second : ℕ

-- What `drainQueue` finds for a client: `running_`, the connect, the two registrations.
pub record Answer : Type 0 where
  pub running : Bool
  pub connect : ConnectReply
  pub registered : Bool × Bool

-- What `epoll_wait` reports of one descriptor, with what the calls that serve it find: the
-- `epoll_ctl`s of a session, the answers for the clients of the queue.
pub record Signal : Type 0 where
  pub fd : ℕ
  pub events : Events
  pub modified : Bool × Bool
  pub answers : AcceptedClient → Answer

pub data Waited : Type 0 where
  ready : List Signal → Waited
  interrupted : Waited
  failed : Waited

-- `looping` while the thread is in `run`.
pub record Reactor (S : Type 0) : Type 0 where
  pub worker : Worker S
  pub inbox : Inbox
  pub looping : Bool
  pub last_sweep : ℕ

-- The loop that closes what the queue still holds.
abbrev pub close_clients : {S : Type 0} → List AcceptedClient → Worker S → Worker S
close_clients [] w = w
close_clients (client ∷ cs) w =
    close_clients cs (record w { taken = client.fd ∷ w.taken; closed = client.fd ∷ w.closed })

abbrev pub session_ids : List Session → List ℕ
session_ids [] = []
session_ids (s ∷ ss) = s.id ∷ session_ids ss

module _ {S : Type 0} (k : Kernel S) (c : Setup) where
  unfoldable pub take_client : Answer → AcceptedClient → Worker S → Worker S
  unfolding create_session
  take_client a client w =
      if not a.running
      then record w { taken = client.fd ∷ w.taken; closed = client.fd ∷ w.closed }
      else create_session k c.buffer_size client a.connect a.registered w

  unfoldable pub take_clients :
      (AcceptedClient → Answer) → List AcceptedClient → Worker S → Worker S
  unfolding take_client
  take_clients answers [] w = w
  take_clients answers (client ∷ cs) w =
      take_clients answers cs (take_client (answers client) client w)

  -- `Worker::drainQueue`.
  unfoldable pub drain_queue : (AcceptedClient → Answer) → Reactor S → Reactor S
  unfolding take_clients
  drain_queue answers r = record r {
    worker = take_clients answers r.inbox.queue r.worker;
    inbox = record (r.inbox) { queue = [] };
  }

  unfoldable pub handle_signal : Signal → Reactor S → Reactor S
  unfolding drain_queue serve_fd
  handle_signal g r =
      if g.fd == c.wake_fd
      then drain_queue g.answers r
      else record r { worker = serve_fd k g.fd g.events g.modified r.worker }

  unfoldable pub handle_signals : List Signal → Reactor S → Reactor S
  unfolding handle_signal
  handle_signals [] r = r
  handle_signals (g ∷ gs) r = handle_signals gs (handle_signal g r)

  -- The sweep at the end of a turn, at most once a second.
  unfoldable pub sweep_due : Reactor S → Reactor S
  unfolding sweep_sessions
  sweep_due r =
      let now : ℕ = k.now r.worker.world.kernel in
      if leb c.second (now - r.last_sweep)
      then record r {
        worker = sweep_sessions k c.connect_limit c.idle_limit r.worker;
        last_sweep = now;
      }
      else r

  unfoldable pub end_batch : Reactor S → Reactor S
  unfolding close_ended sweep_due
  end_batch r = sweep_due (record r { worker = close_ended k r.worker })

  unfoldable pub empty_queue : Reactor S → Reactor S
  empty_queue r = record r {
    worker = close_clients r.inbox.queue r.worker;
    inbox = record (r.inbox) { queue = [] };
  }

  unfoldable pub close_remaining : Worker S → Worker S
  unfolding close_sessions
  close_remaining w = close_sessions k (session_ids w.sessions) w

  -- `Worker::run` after its loop.
  unfoldable pub shut_down : (AcceptedClient → Answer) → Reactor S → Reactor S
  unfolding drain_queue empty_queue close_remaining
  shut_down answers r =
      let emptied = empty_queue (drain_queue answers r) in
      record emptied { worker = close_remaining emptied.worker; looping = false }

  unfoldable pub after_wait : (AcceptedClient → Answer) → Waited → Reactor S → Reactor S
  unfolding handle_signals end_batch shut_down
  after_wait answers (ready gs) r = end_batch (handle_signals gs r)
  after_wait answers interrupted r = r
  after_wait answers failed r = shut_down answers r

  -- One turn of the loop of `Worker::run`; `answers` serves the clients that a last drain meets.
  unfoldable pub turn : (AcceptedClient → Answer) → Waited → Reactor S → Reactor S
  unfolding after_wait shut_down
  turn answers reply r =
      if not r.looping
      then r
      else if not r.inbox.running
      then shut_down answers r
      else after_wait answers reply r

-- `Worker::start` and `Worker::stop`: the thread that `start` makes enters `run`.
unfoldable pub start : {S : Type 0} → ℕ → Reactor S → Reactor S
start now r =
    if r.inbox.running
    then r
    else record r { inbox = record (r.inbox) { running = true }; looping = true; last_sweep = now }

unfoldable pub stop : {S : Type 0} → Reactor S → Reactor S
stop r = record r { inbox = record (r.inbox) { running = false } }

-- What the two threads do.
pub data Action : Type 0 where
  posts : AcceptedClient → WakeReply → Action
  turns : (AcceptedClient → Answer) → Waited → Action
  stops : Action

module _ {S : Type 0} (k : Kernel S) (c : Setup) where
  unfoldable pub act : Action → Reactor S → Reactor S
  unfolding turn stop
  act (posts client wake) r = record r { inbox = (enqueue r.inbox client wake).1 }
  act (turns answers reply) r = turn k c answers reply r
  act stops r = stop r

  unfoldable pub run_reactor : List Action → Reactor S → Reactor S
  unfolding act
  run_reactor [] r = r
  run_reactor (a ∷ more) r = run_reactor more (act a r)
