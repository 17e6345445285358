-- ===== src/Worker/Reactor/Tests.antt =====
-- A worker of src/Worker.cpp that serves two clients, is stopped, or whose `epoll_wait` fails.
use flux_gate.Base.{
  ℕ, ◌+◌, ◌≤◌, ◌≡◌, refl, true, false, List, [], ◌∷◌, none, some, length, arith, add64, sub64,
  mul64,
}
use flux_gate.Backend.{record_connect_success, record_connect_failure}
use flux_gate.Pool.{acquire, reset_lease}
use flux_gate.Pool.Leases.{Tally}
use flux_gate.Metrics.{on_closed, on_connect_failure, on_opened, on_rejected}
use flux_gate.Session.State.{Events, new_session, idle_for}
use flux_gate.Session.Handler.{handle_event}
use flux_gate.Session.Stages.{connect_stage, error_stage}
use flux_gate.Worker.Queue.{AcceptedClient, enqueue, waiting}
use flux_gate.Worker.Books.{leases}
use flux_gate.Worker.Tests.{clock, clock-IsKernel, fresh, client, all_idle}
use flux_gate.Worker.Reactor.Served.{occurs, holds}
use flux_gate.Worker.Reactor.Stopped.{IsFresh, IsOver, run_reactor-count, turn-stop-IsOver}
use flux_gate.Worker.Reactor.Failed.{turn-enqueue}
use flux_gate.Worker.Reactor.Limit.{run_reactor-IsLimited}
use flux_gate.Worker.Reactor.{
  Setup, Answer, Signal, ready, interrupted, failed, Reactor, turn, stop, Action, posts, turns,
  run_reactor,
}

abbrev pub setup : Setup
setup = record { wake_fd = 5; buffer_size = 8; connect_limit = 50; idle_limit = 60; second = 1000 }

abbrev pub started : Reactor ℕ
started = record {
  worker = fresh;
  inbox = record { running = true; backlog = 4; queue = [] };
  looping = true;
  last_sweep = 100;
}

-- Each connect is done at once, on the next descriptor.
abbrev pub answers : AcceptedClient → Answer
answers c = record { running = true; connect = some (c.fd + 1, false); registered = (true, true) }

abbrev pub events : Events
events = record {
  readable = false;
  writable = false;
  failing = false;
  hangup = false;
  read_hangup = false;
}

abbrev failing : Events
failing = record (events) { failing = true }

abbrev pub signal : ℕ → Events → Signal
signal fd ev = record { fd = fd; events = ev; modified = (true, true); answers = answers }

-- Two clients come, the worker serves them, and the socket of the first one fails.
abbrev busy : List Action
busy =
    posts (client 10) none
    ∷ posts (client 20) none
    ∷ turns answers interrupted
    ∷ turns answers (ready (signal 5 events ∷ []))
    ∷ turns answers (ready (signal 10 failing ∷ signal 11 failing ∷ []))
    ∷ []

busy_leaves :
    (leases [] (run_reactor clock setup busy started).worker.sessions ≡ some 1 ∷ [])
    × ((run_reactor clock setup busy started).worker.closed ≡ 10 ∷ 11 ∷ [])
unfolding run_reactor acquire new_session add64 sub64 mul64 record_connect_success reset_lease
    record_connect_failure enqueue handle_event connect_stage error_stage idle_for on_closed
    on_connect_failure on_opened on_rejected
busy_leaves = (refl, refl)

started-IsFresh : IsFresh [] started
started-IsFresh = record {
  no_sessions = refl;
  none_active = refl;
  first_id = refl;
  none_taken = refl;
  none_closed = refl;
  no_clients = refl;
  shared_pool = all_idle;
}

run_reactor-count_example :
    ((run_reactor clock setup busy started).worker.active_sessions
      ≡ length (run_reactor clock setup busy started).worker.sessions)
    × Tally
        (run_reactor clock setup busy started).worker.world.pool
        (leases [] (run_reactor clock setup busy started).worker.sessions)
    × ((f : ℕ)
        → holds f (run_reactor clock setup busy started).worker.sessions
            + occurs f (run_reactor clock setup busy started).worker.closed
          ≡ occurs f (run_reactor clock setup busy started).worker.taken)
run_reactor-count_example =
    run_reactor-count clock clock-IsKernel setup [] (omega arith) busy started (omega arith)
      started-IsFresh

turn-stop-IsOver_example :
    IsOver [] (turn clock setup answers interrupted (stop (run_reactor clock setup busy started)))
unfolding run_reactor enqueue mul64 acquire add64 record_connect_success handle_event connect_stage
    error_stage
turn-stop-IsOver_example =
    turn-stop-IsOver clock clock-IsKernel setup [] (omega arith) busy answers interrupted started
      (omega arith) started-IsFresh refl

turn-enqueue_example :
    ((enqueue (turn clock setup answers failed started).inbox (client 30) none).0 ≡ true)
    × ((run_reactor clock setup
          (posts (client 30) none ∷ busy)
          (turn clock setup answers failed started)).worker
        ≡ (turn clock setup answers failed started).worker)
    × (1
        ≤ waiting 30
            (run_reactor clock setup
              (posts (client 30) none ∷ busy)
              (turn clock setup answers failed started)).inbox.queue)
turn-enqueue_example =
    turn-enqueue clock setup answers (client 30) none busy started refl refl (omega arith)
      (omega arith) refl

run_reactor-IsLimited_example :
    ((run_reactor clock setup busy started).inbox.backlog ≡ 4)
    × (length (run_reactor clock setup busy started).inbox.queue ≤ mul64 4 4)
run_reactor-IsLimited_example = run_reactor-IsLimited 4 clock setup busy started refl (omega arith)
