-- ===== src/Acceptor/Tests.antt =====
-- Runs of the acceptor of src/main.cpp on two workers.
use flux_gate.Base.{
  ℕ, zero, suc, ◌<◌, ◌+◌, ◌≡◌, refl, true, List, [], ◌∷◌, none, some, length, get_elem?, add64,
  mul64, arith,
}
use flux_gate.Metrics.{new_metrics}
use flux_gate.Io.{eintr, eagain}
use flux_gate.Worker.Queue.{Inbox, enqueue}
use flux_gate.Acceptor.{
  Acceptor, Incoming, AcceptReply, incoming, drains, failed, swap_queue, Counts, scan_workers,
  select_worker, hand_over, after_enqueue, turn_away, accept_client, accept_all,
}
use flux_gate.Acceptor.Select.{IsFirstLeast, visit, select_worker-IsFirstLeast}
use flux_gate.Acceptor.Ledger.{queued, closings, placed, accept_client_twice}
use flux_gate.Acceptor.Serve.{
  MainPass, asked, readable, quiet, broken, drained, stopped, serve, all_arrivals, serve-placed,
}

-- Worker 1 has fewer sessions than worker 0.
abbrev counts : Counts
counts i zero = 7
counts i (suc w) = 3

select_worker-IsFirstLeast_example :
    (o : ℕ) × IsFirstLeast 2 counts 4 2 o × (select_worker 2 counts 4 ≡ visit 2 counts 4 o)
select_worker-IsFirstLeast_example =
    select_worker-IsFirstLeast 2 counts 4 (omega arith) (omega arith)

abbrev inbox : Inbox
inbox = record { running = true; backlog = 1; queue = [] }

abbrev idle : Acceptor
idle = record {
  workers = inbox ∷ inbox ∷ [];
  dispatch_cursor = 0;
  metrics = new_metrics;
  closed = [];
  taken = [];
}

abbrev client : ℕ → Incoming
client fd = record {
  client = record { fd = fd; address = [] };
  configured = true;
  active = counts;
  wake = none;
}

-- The queue of worker 1 takes four clients; the fifth is turned away.
abbrev replies : List AcceptReply
replies =
    incoming (client 10)
    ∷ failed eintr
    ∷ incoming (client 11)
    ∷ incoming (client 12)
    ∷ incoming (client 13)
    ∷ incoming (client 14)
    ∷ failed eagain
    ∷ incoming (client 15)
    ∷ []

fifth_closed : (accept_all replies idle).closed ≡ 14 ∷ []
unfolding accept_all accept_client hand_over after_enqueue turn_away enqueue select_worker
    scan_workers add64 mul64
fifth_closed = refl

-- A signal interrupts poll() and is not for the program; then the clients come; then the stop.
abbrev passes : List MainPass
passes =
    broken eintr
    ∷ quiet
    ∷ readable replies
    ∷ drained 1
    ∷ readable (incoming (client 16) ∷ drains 1 ∷ failed eagain ∷ [])
    ∷ asked
    ∷ readable replies
    ∷ []

stop_ends : (serve passes idle).0 ≡ stopped
unfolding serve
stop_ends = refl

serve-placed_example : placed 14 (serve passes idle).1 ≡ placed 14 idle + all_arrivals 14 passes
serve-placed_example =
    serve-placed 14 passes idle (record { staffed = omega arith; cursor = omega arith })
      (
        tt,
        (
          tt,
          (
            (refl, (refl, (refl, (refl, (refl, (refl, tt)))))),
            (tt, ((refl, tt), (tt, ((refl, (refl, (refl, (refl, (refl, (refl, tt)))))), tt)))),
          ),
        ),
      )

all_taken : (serve passes idle).1.taken ≡ 16 ∷ 10 ∷ 11 ∷ 12 ∷ 13 ∷ []
unfolding serve accept_all accept_client hand_over after_enqueue turn_away enqueue select_worker
    scan_workers add64 mul64 swap_queue
all_taken = refl

-- EIO, where the eventfd is written.
abbrev unlucky : Incoming
unlucky = record (client 20) { wake = some 5 }

unlucky_worker :
    get_elem? idle.workers (select_worker (length idle.workers) unlucky.active idle.dispatch_cursor)
    ≡ some inbox
unfolding select_worker scan_workers add64
unlucky_worker = refl

inbox_room : length inbox.queue < mul64 inbox.backlog 4
unfolding mul64
inbox_room = omega arith

accept_client_twice_example :
    queued 20 (accept_client unlucky idle).workers + closings 20 (accept_client unlucky idle).closed
    ≡ queued 20 idle.workers + closings 20 idle.closed + 2
accept_client_twice_example =
    accept_client_twice unlucky idle inbox refl unlucky_worker refl inbox_room refl
