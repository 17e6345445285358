-- ===== src/Worker/Tests.antt =====
-- A worker of src/Worker.cpp with two backends.
use flux_gate.Base.{
  ℕ, zero, suc, ◌≡◌, refl, true, false, List, [], ◌∷◌, none, some, get_elem?, arith, add64, sub64,
  mul64,
}
use flux_gate.Backend.{Backend, record_connect_success, record_connect_failure}
use flux_gate.Pool.{acquire, reset_lease}
use flux_gate.Pool.Leases.{Tally}
use flux_gate.Metrics.{new_metrics, on_closed, on_connect_failure, on_opened, on_rejected}
use flux_gate.Io.{eagain, RecvReply, SendReply, Kernel}
use flux_gate.Session.State.{new_session, connect_timed_out, idle_for}
use flux_gate.Worker.Queue.{AcceptedClient}
use flux_gate.Worker.Sessions.{Worker}
use flux_gate.Worker.Books.{leases, Tally-acquire}
use flux_gate.Worker.Events.{IsKept, run_events-IsKept}
use flux_gate.Session.State.{Events, Live}
use flux_gate.Session.Handler.{run_events}
use flux_gate.Buffer.Content.{new_buffer-IsValid}
use flux_gate.Io.{IsKernel}
use flux_gate.Worker.Runs.{Step, creates, ends, sweeps, run_steps}

-- A kernel that only tells the time.
abbrev pub clock : Kernel ℕ
clock = record {
  recv = λ s fd room. (RecvReply.failed eagain, s);
  send = λ s fd xs. (SendReply.failed eagain, s);
  so_error = λ s fd. (some 0, s);
  shut_write = λ s fd. s;
  now = λ s. s;
  signals = λ s. 0;
}

abbrev backend : ℕ → Backend
backend port = record {
  config = record { name = port ∷ []; host = []; port = port; weight = 1 };
  endpoint = record { address = []; text = [] };
  healthy = true;
  active_connections = 0;
  total_connections = 0;
  failed_connections = 0;
}

abbrev pub fresh : Worker ℕ
fresh = record {
  fd_to_session = [];
  sessions = [];
  active_sessions = 0;
  next_session_id = 1;
  interest = [];
  taken = [];
  closed = [];
  world = record {
    kernel = 100;
    pool = record { backends = backend 9001 ∷ backend 9002 ∷ []; tie_breaker = 0 };
    metrics = new_metrics;
    trace = [];
  };
}

abbrev pub client : ℕ → AcceptedClient
client fd = record { fd = fd; address = [] }

-- One connect succeeds, one fails, one waits and is swept with a limit of 0.
abbrev steps : List Step
steps =
    creates 8 (client 10) (some (11, false)) (true, true)
    ∷ creates 8 (client 12) none (true, true)
    ∷ creates 8 (client 13) (some (14, true)) (true, true)
    ∷ sweeps 0 50
    ∷ ends
    ∷ []

steps_leave :
    (leases [] (run_steps clock steps fresh).sessions ≡ some 0 ∷ [])
    × ((run_steps clock steps fresh).closed ≡ 13 ∷ 14 ∷ 12 ∷ [])
    × ((run_steps clock steps fresh).world.metrics.rejected ≡ 1)
    × ((run_steps clock steps fresh).world.metrics.connect_failures ≡ 2)
unfolding run_steps acquire new_session add64 sub64 mul64 record_connect_success reset_lease
    record_connect_failure connect_timed_out idle_for on_closed on_connect_failure on_opened
    on_rejected
steps_leave = (refl, refl, refl, refl)

pub all_idle :
    (i : ℕ) (b : Backend)
    → get_elem? fresh.world.pool.backends i ≡ some b
    → b.active_connections ≡ 0
all_idle zero b at = cc
all_idle (suc zero) b at = cc
all_idle (suc (suc i)) b at = cc

pub clock-IsKernel : IsKernel clock
clock-IsKernel = record {
  recv_fits = λ s fd room. (omega arith, omega arith);
  send_fits = λ s fd xs. (omega arith, omega arith);
}

-- A session that waits for its connect, with the lease of the first backend.
abbrev waiting_session : Live ℕ
waiting_session =
    new_session clock 1 10 11 true (some 0) 8 []
      (record (fresh.world) { pool = (acquire fresh.world.pool).0 })

waiting_session-IsKept : IsKept (some 0 ∷ []) (1, 10, 11) (some 0) waiting_session
unfolding new_session acquire mul64
waiting_session-IsKept =
    (one_lease, new_buffer-IsValid 8 (omega arith), new_buffer-IsValid 8 (omega arith), refl, refl)
  where
    one_lease : Tally (acquire fresh.world.pool).0 (some 0 ∷ [])
    one_lease = Tally-acquire fresh.world.pool [] all_idle (omega arith)

abbrev connected : List (ℕ × Events)
connected =
    (
      11,
      record {
        readable = false;
        writable = true;
        failing = false;
        hangup = false;
        read_hangup = false;
      },
    )
    ∷ []

run_events-IsKept_example :
    IsKept (some 0 ∷ []) (1, 10, 11) (some 0) (run_events clock connected waiting_session)
run_events-IsKept_example =
    run_events-IsKept clock clock-IsKernel (some 0 ∷ []) (1, 10, 11) (some 0) connected
      waiting_session waiting_session-IsKept
