-- ===== src/Acceptor.antt =====
-- The acceptor of src/main.cpp: `selectWorker` and the loop around accept4().
pub mod Select
pub mod Ledger
pub mod Serve
mod Tests
use flux_gate.Base.{
  map, ◌++◌, ℕ, zero, suc, ◌+◌, ◌%◌, Bool, not, List, [], ◌∷◌, none, some, length, get_elem?, set,
  ltb, ◌==◌, if◌then◌else◌, add64,
}
use flux_gate.Metrics.{Metrics, on_accepted, on_rejected}
use flux_gate.Io.{eintr}
use flux_gate.Worker.Queue.{AcceptedClient, Inbox, WakeReply, enqueue}

-- The counts that the acceptor reads: `active i w` is what `activeSessions()` of worker `w`
-- returns in round `i` of the loop, while the workers go on.
abbrev pub Counts : Type 0
Counts = ℕ → ℕ → ℕ

-- The loop of `selectWorker` from round `i`, with the number of rounds left.
unfoldable pub scan_workers : ℕ → Counts → ℕ → ℕ → ℕ → ℕ × ℕ → ℕ × ℕ
scan_workers n active cursor i zero best = best
scan_workers n active cursor i (suc rounds) best =
    let index : ℕ = add64 cursor i % n in
    let count : ℕ = active i index in
    scan_workers n active cursor (suc i) rounds (if ltb count best.1 then (index, count) else best)

-- `selectWorker` among `n` workers.
unfoldable pub select_worker : ℕ → Counts → ℕ → ℕ
unfolding scan_workers
select_worker zero active cursor = 0
select_worker (suc n) active cursor =
    let selected : ℕ = cursor % suc n in
    (scan_workers (suc n) active cursor 1 n (selected, active 0 selected)).0

-- The main thread's state, with the queues that it shares with the workers; `closed` holds the
-- descriptors it has closed, `taken` those that the workers have taken from the queues.
pub record Acceptor : Type 0 where
  pub workers : List Inbox
  pub dispatch_cursor : ℕ
  pub metrics : Metrics
  pub closed : List ℕ
  pub taken : List ℕ

-- A client that accept4() returns, and what the calls made for it then find.
pub record Incoming : Type 0 where
  pub client : AcceptedClient
  pub configured : Bool
  pub active : Counts
  pub wake : WakeReply

-- What accept4() returns; or, between two of its calls, a worker takes its queue.
pub data AcceptReply : Type 0 where
  incoming : Incoming → AcceptReply
  drains : ℕ → AcceptReply
  failed : ℕ → AcceptReply

-- `::close(clientFd); metrics.onRejected();`
unfoldable pub turn_away : Incoming → Acceptor → Acceptor
turn_away c a = record a { closed = c.client.fd ∷ a.closed; metrics = on_rejected a.metrics }

-- What follows `enqueue` on worker `i`.
unfoldable pub after_enqueue : ℕ → Incoming → Bool × Inbox → Acceptor → Acceptor
unfolding turn_away
after_enqueue i c (taken, w) a =
    let b : Acceptor = record a { workers = set a.workers i w } in
    if taken then b else turn_away c b

unfoldable pub hand_over : Incoming → Acceptor → Acceptor
unfolding select_worker after_enqueue
hand_over c a =
    let i : ℕ = select_worker (length a.workers) c.active a.dispatch_cursor in
    let b : Acceptor = record a { dispatch_cursor = add64 a.dispatch_cursor 1 } in
    elim (get_elem? a.workers i) [
      | none ↦ b
      | some w ↦ after_enqueue i c (enqueue w c.client c.wake) b
    ]

-- One accepted client.
unfoldable pub accept_client : Incoming → Acceptor → Acceptor
unfolding hand_over
accept_client c a =
    let b : Acceptor = record a { metrics = on_accepted a.metrics } in
    if not c.configured then turn_away c b else hand_over c b

-- `local.swap(queue_)` in `Worker::drainQueue`: worker `j` takes all that waits for it.
unfoldable pub swap_queue : ℕ → Acceptor → Acceptor
swap_queue j a = elim (get_elem? a.workers j) [
  | none ↦ a
  | some w ↦ record a {
    workers = set a.workers j (record w { queue = [] });
    taken = map (λ c. c.fd) w.queue ++ a.taken;
  }
]

-- The loop, on the replies of accept4(): an interruption is passed over, and EAGAIN or any other
-- error ends it.
unfoldable pub accept_all : List AcceptReply → Acceptor → Acceptor
unfolding accept_client swap_queue
accept_all [] a = a
accept_all (incoming c ∷ rs) a = accept_all rs (accept_client c a)
accept_all (drains j ∷ rs) a = accept_all rs (swap_queue j a)
accept_all (failed e ∷ rs) a = let rest = accept_all rs a in if e == eintr then rest else a
