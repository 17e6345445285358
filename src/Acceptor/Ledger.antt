-- ===== src/Acceptor/Ledger.antt =====
-- Where the descriptors of the accepted clients go, in the loop of src/main.cpp.
use flux_gate.Base.{
  map, ap, none, Option-cases, ℕ, zero, suc, ◌+◌, ◌<◌, ◌≡◌, inl, inr, refl, Bool, true, false, List,
  [], ◌∷◌, some, length, get_elem?, get_elem?-some, set, ◌==◌, if◌then◌else◌, arith, ◌++◌, leb-lt,
  Bool-cases, length-set, add64, mul64, word_mod, add64-lt,
}
use flux_gate.Metrics.{on_accepted}
use flux_gate.Io.{eintr}
use flux_gate.Worker.Queue.{
  Inbox, AcceptedClient, same_fd, waiting, WakeReply, waiting-append, same_fd_refl, woken, enqueue,
  enqueue-Passed, Passed,
}
use flux_gate.Acceptor.{
  Acceptor, Incoming, AcceptReply, incoming, failed, turn_away, after_enqueue, hand_over,
  accept_client, accept_all, select_worker, drains, swap_queue,
}
use flux_gate.Acceptor.Select.{select_worker-lt}

-- How often a descriptor stands in the queues, among the closed ones, and among those accepted.
abbrev pub queued : ℕ → List Inbox → ℕ
queued f [] = 0
queued f (w ∷ ws) = waiting f w.queue + queued f ws

abbrev pub closings : ℕ → List ℕ → ℕ
closings f [] = 0
closings f (g ∷ gs) = same_fd f g + closings f gs

abbrev pub arrivals : ℕ → List AcceptReply → ℕ
arrivals f [] = 0
arrivals f (incoming c ∷ rs) = same_fd f c.client.fd + arrivals f rs
arrivals f (drains j ∷ rs) = arrivals f rs
arrivals f (failed e ∷ rs) = if e == eintr then arrivals f rs else 0

-- Every wake-up gets through, or finds the eventfd's counter full (EAGAIN).
abbrev pub AllWoken : List AcceptReply → Type 0
AllWoken [] = Unit {0}
AllWoken (incoming c ∷ rs) = (woken c.wake ≡ true) × AllWoken rs
AllWoken (drains j ∷ rs) = AllWoken rs
AllWoken (failed e ∷ rs) = AllWoken rs

-- How often a descriptor waits, has been closed, or has been taken.
abbrev pub placed : ℕ → Acceptor → ℕ
placed f a = queued f a.workers + closings f a.closed + closings f a.taken

pub record IsReady (a : Acceptor) : Type 0 where
  pub staffed : 0 < length a.workers
  pub cursor : a.dispatch_cursor < word_mod

queued-set :
    (f : ℕ) (ws : List Inbox) (i : ℕ) (w v : Inbox)
    → get_elem? ws i ≡ some w
    → queued f (set ws i v) + waiting f w.queue ≡ queued f ws + waiting f v.queue
queued-set f [] i w v h = cc
queued-set f (u ∷ ws) zero w v h = ground arith
queued-set f (u ∷ ws) (suc i) w v h = omega (arith, queued-set f ws i w v h)

hand_over_found :
    (c : Incoming) (a : Acceptor) (w : Inbox)
    → get_elem? a.workers (select_worker (length a.workers) c.active a.dispatch_cursor) ≡ some w
    → hand_over c a
      ≡ after_enqueue
          (select_worker (length a.workers) c.active a.dispatch_cursor)
          c
          (enqueue w c.client c.wake)
          (record a { dispatch_cursor = add64 a.dispatch_cursor 1 })
unfolding hand_over
hand_over_found c a w at = rw (at, hand_over)

module _ (f : ℕ) (c : Incoming) where
  turn_away-placed : (a : Acceptor) → placed f (turn_away c a) ≡ placed f a + same_fd f c.client.fd
  unfolding turn_away
  turn_away-placed a = omega arith

  after_enqueue-placed :
      (a : Acceptor) (i : ℕ) (w : Inbox) (r : Bool × Inbox)
      → get_elem? a.workers i ≡ some w
      → Passed f w c.client r
      → placed f (after_enqueue i c r a) ≡ placed f a + same_fd f c.client.fd
  unfolding after_enqueue turn_away
  after_enqueue-placed a i w (taken, v) at (inl (t, e)) =
      rw t (omega (arith, queued-set f a.workers i w v at, e))
  after_enqueue-placed a i w (taken, v) at (inr (t, e)) =
      rw t (omega (arith, queued-set f a.workers i w v at, e))

  -- The worker that is selected stands in the vector.
  chosen :
      (a : Acceptor)
      → IsReady a
      → (w : Inbox) × (get_elem? a.workers
            (select_worker (length a.workers) c.active a.dispatch_cursor)
          ≡ some w)
  chosen a r =
      get_elem?-some a.workers _
        (select_worker-lt (length a.workers) c.active a.dispatch_cursor r.staffed r.cursor)

  hand_over-placed :
      (a : Acceptor)
      → IsReady a
      → woken c.wake ≡ true
      → placed f (hand_over c a) ≡ placed f a + same_fd f c.client.fd
  hand_over-placed a r h =
      let (w, at) = chosen a r in
      rw (hand_over_found c a w at) (
        after_enqueue-placed (record a { dispatch_cursor = add64 a.dispatch_cursor 1 }) _ w
          (enqueue w c.client c.wake) at (enqueue-Passed f w c.client c.wake h))

  accept_client-placed :
      (a : Acceptor)
      → IsReady a
      → woken c.wake ≡ true
      → placed f (accept_client c a) ≡ placed f a + same_fd f c.client.fd
  unfolding accept_client
  accept_client-placed a r h = elim (Bool-cases c.configured) [
    | inl well ↦ rw well (
        hand_over-placed (record a { metrics = on_accepted a.metrics })
          (record { staffed = r.staffed; cursor = r.cursor }) h)
    | inr ill ↦ rw ill (turn_away-placed (record a { metrics = on_accepted a.metrics }))
  ]

module _ (c : Incoming) (a : Acceptor) (r : IsReady a) where
  after_enqueue-IsReady :
      (i : ℕ) (e : Bool × Inbox) (b : Acceptor) → IsReady b → IsReady (after_enqueue i c e b)
  unfolding after_enqueue turn_away
  after_enqueue-IsReady i (true, v) b ready = record {
    staffed = omega (arith, length-set b.workers i v, ready.staffed);
    cursor = ready.cursor;
  }
  after_enqueue-IsReady i (false, v) b ready = record {
    staffed = omega (arith, length-set b.workers i v, ready.staffed);
    cursor = ready.cursor;
  }

  hand_over-IsReady : IsReady (hand_over c a)
  hand_over-IsReady =
      let (w, at) = chosen 0 c a r in
      rw (hand_over_found c a w at) (
        after_enqueue-IsReady _ (enqueue w c.client c.wake)
          (record a { dispatch_cursor = add64 a.dispatch_cursor 1 })
          (record { staffed = r.staffed; cursor = add64-lt a.dispatch_cursor 1 }))

pub accept_client-IsReady : (c : Incoming) (a : Acceptor) → IsReady a → IsReady (accept_client c a)
unfolding accept_client turn_away
accept_client-IsReady c a r =
    let b : Acceptor = record a { metrics = on_accepted a.metrics } in
    let ready : IsReady b = record { staffed = r.staffed; cursor = r.cursor } in
    elim (Bool-cases c.configured) [
      | inl well ↦ rw well (hand_over-IsReady c b ready)
      | inr ill ↦ rw ill (record { staffed = r.staffed; cursor = r.cursor })
    ]

closings-taken :
    (f : ℕ) (q : List AcceptedClient) (t : List ℕ)
    → closings f (map (λ c. c.fd) q ++ t) ≡ waiting f q + closings f t
closings-taken f [] t = omega arith
closings-taken f (c ∷ q) t = omega (arith, closings-taken f q t)

module _ (j : ℕ) (a : Acceptor) where
  swap_queue_found :
      (w : Inbox)
      → get_elem? a.workers j ≡ some w
      → swap_queue j a ≡ record a {
        workers = set a.workers j (record w { queue = [] });
        taken = map (λ c. c.fd) w.queue ++ a.taken;
      }
  unfolding swap_queue
  swap_queue_found w at = rw (at, swap_queue) refl

  swap_queue_missing : get_elem? a.workers j ≡ none → swap_queue j a ≡ a
  unfolding swap_queue
  swap_queue_missing missing = rw (missing, swap_queue) refl

  -- A descriptor that a worker takes stands no more in its queue.
  pub swap_queue-placed : (f : ℕ) → placed f (swap_queue j a) ≡ placed f a
  swap_queue-placed f = elim (Option-cases (get_elem? a.workers j)) [
    | inl missing ↦ ap (placed f) (swap_queue_missing missing)
    | inr (w, at) ↦ rw (swap_queue_found w at) (
        omega (
          arith,
          queued-set f a.workers j w (record w { queue = [] }) at,
          closings-taken f w.queue a.taken,
        ))
  ]

  pub swap_queue-IsReady : IsReady a → IsReady (swap_queue j a)
  swap_queue-IsReady r = elim (Option-cases (get_elem? a.workers j)) [
    | inl missing ↦ rw (swap_queue_missing missing) r
    | inr (w, at) ↦ rw (swap_queue_found w at) (record {
      staffed = omega (arith, length-set a.workers j (record w { queue = [] }), r.staffed);
      cursor = r.cursor;
    })
  ]

-- With at least one worker, a cursor below 2 ^ 64, and wake-ups that get through or find EAGAIN:
-- over the accept loop, whatever the replies and whenever a worker takes its queue, each
-- descriptor accepted is put once more in the queues, among the closed ones or among those that
-- the workers have taken, and no other is.
pub accept_all-placed :
    (f : ℕ) (rs : List AcceptReply) (a : Acceptor)
    → IsReady a
    → AllWoken rs
    → placed f (accept_all rs a) ≡ placed f a + arrivals f rs
unfolding accept_all
accept_all-placed f [] a r h = omega arith
accept_all-placed f (incoming c ∷ rs) a r h = omega (
  arith,
  accept_all-placed f rs (accept_client c a) (accept_client-IsReady c a r) h.1,
  accept_client-placed f c a r h.0,
)
accept_all-placed f (drains j ∷ rs) a r h = omega (
  arith,
  accept_all-placed f rs (swap_queue j a) (swap_queue-IsReady j a r) h,
  swap_queue-placed j a f,
)
accept_all-placed f (failed e ∷ rs) a r h = elim (Bool-cases (e == eintr)) [
  | inl again ↦ rw again (accept_all-placed f rs a r h)
  | inr stop ↦ rw stop (omega arith)
]

enqueue_lost :
    (w : Inbox) (client : AcceptedClient) (wake : WakeReply)
    → w.running ≡ true
    → length w.queue < mul64 w.backlog 4
    → woken wake ≡ false
    → enqueue w client wake ≡ (false, record w { queue = w.queue ++ (client ∷ []) })
unfolding enqueue
enqueue_lost w client wake on room lost = rw (on, leb-lt _ _ room, lost) refl

-- When the selected worker runs and has room and the wake-up fails with an error other than
-- EAGAIN, a client that could be configured is counted twice more than before: its descriptor is
-- queued and closed at once.
pub accept_client_twice :
    (c : Incoming) (a : Acceptor) (w : Inbox)
    → c.configured ≡ true
    → get_elem? a.workers (select_worker (length a.workers) c.active a.dispatch_cursor) ≡ some w
    → w.running ≡ true
    → length w.queue < mul64 w.backlog 4
    → woken c.wake ≡ false
    → queued c.client.fd (accept_client c a).workers
        + closings c.client.fd (accept_client c a).closed
      ≡ queued c.client.fd a.workers + closings c.client.fd a.closed + 2
unfolding accept_client after_enqueue turn_away
accept_client_twice c a w well at on room lost =
    rw
      (
        well,
        hand_over_found c (record a { metrics = on_accepted a.metrics }) w at,
        enqueue_lost w c.client c.wake on room lost,
      )
      (omega (
        arith,
        queued-set c.client.fd a.workers _ w (record w { queue = w.queue ++ (c.client ∷ []) }) at,
        waiting-append c.client.fd w.queue c.client,
        same_fd_refl c.client.fd,
      ))
