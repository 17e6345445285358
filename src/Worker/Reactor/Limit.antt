-- ===== src/Worker/Reactor/Limit.antt =====
-- The bound on a worker's queue (src/Worker.cpp).
use flux_gate.Base.{
  refl, ℕ, ◌-◌, ◌≤◌, ◌≡◌, inl, inr, Bool, true, false, not, List, [], ◌∷◌, ◌==◌, length, leb, mul64,
  if◌then◌else◌, arith, leb→lt, length-append, Bool-cases,
}
use flux_gate.Io.{Kernel}
use flux_gate.Worker.Queue.{AcceptedClient, Inbox, WakeReply, enqueue}
use flux_gate.Worker.Sessions.{close_ended}
use flux_gate.Worker.Reactor.{
  Setup, Answer, Signal, Waited, ready, interrupted, failed, Reactor, drain_queue, handle_signal,
  handle_signals, sweep_due, end_batch, empty_queue, shut_down, after_wait, turn, stop, Action,
  posts, turns, stops, act, run_reactor,
}

module _ (backlog limit : ℕ) where
  -- The queue of a worker with this backlog is within a limit.
  abbrev pub IsLimited : Inbox → Type 0
  IsLimited w = (w.backlog ≡ backlog) × (length w.queue ≤ limit)

  enqueue-IsLimited :
      (w : Inbox) (client : AcceptedClient) (wake : WakeReply)
      → limit ≡ mul64 backlog 4
      → IsLimited w
      → IsLimited (enqueue w client wake).1
  unfolding enqueue
  enqueue-IsLimited w client wake e h = elim (Bool-cases w.running) [
    | inr stopped ↦ rw stopped h
    | inl on ↦ elim (Bool-cases (leb (mul64 w.backlog 4) (length w.queue))) [
      | inl full ↦ rw (on, full) h
      | inr room ↦
          let lt = leb→lt (mul64 w.backlog 4) (length w.queue) room in
          rw (on, room) (h.0, omega (arith, e, rw h.0 at lt, length-append w.queue (client ∷ [])))
    ]
  ]

  module _ {S : Type 0} (k : Kernel S) (c : Setup) where
    IsLimited-if :
        (t : Bool) (x y : Reactor S)
        → IsLimited x.inbox
        → IsLimited y.inbox
        → IsLimited (if t then x else y).inbox
    IsLimited-if true x y h g = h
    IsLimited-if false x y h g = g

    handle_signals-IsLimited :
        (gs : List Signal) (r : Reactor S)
        → IsLimited r.inbox
        → IsLimited (handle_signals k c gs r).inbox
    unfolding handle_signals handle_signal drain_queue
    handle_signals-IsLimited [] r h = h
    handle_signals-IsLimited (g ∷ gs) r h =
        handle_signals-IsLimited gs (handle_signal k c g r)
          (IsLimited-if (g.fd == c.wake_fd) _ _ (h.0, omega arith) h)

    end_batch-IsLimited : (r : Reactor S) → IsLimited r.inbox → IsLimited (end_batch k c r).inbox
    unfolding end_batch sweep_due
    end_batch-IsLimited r h =
        let w = close_ended k r.worker in
        IsLimited-if (leb c.second (k.now w.world.kernel - r.last_sweep)) _ _ h h

    shut_down-IsLimited :
        (answers : AcceptedClient → Answer) (r : Reactor S)
        → IsLimited r.inbox
        → IsLimited (shut_down k c answers r).inbox
    unfolding shut_down empty_queue drain_queue
    shut_down-IsLimited answers r h = (h.0, omega arith)

    after_wait-IsLimited :
        (answers : AcceptedClient → Answer) (reply : Waited) (r : Reactor S)
        → IsLimited r.inbox
        → IsLimited (after_wait k c answers reply r).inbox
    unfolding after_wait
    after_wait-IsLimited answers (ready gs) r h =
        end_batch-IsLimited (handle_signals k c gs r) (handle_signals-IsLimited gs r h)
    after_wait-IsLimited answers interrupted r h = h
    after_wait-IsLimited answers failed r h = shut_down-IsLimited answers r h

    pub turn-IsLimited :
        (answers : AcceptedClient → Answer) (reply : Waited) (r : Reactor S)
        → IsLimited r.inbox
        → IsLimited (turn k c answers reply r).inbox
    unfolding turn
    turn-IsLimited answers reply r h = IsLimited-if (not r.looping) _ _ h (
        IsLimited-if (not r.inbox.running) _ _ (shut_down-IsLimited answers r h)
          (after_wait-IsLimited answers reply r h))

    act-IsLimited :
        (a : Action) (r : Reactor S)
        → limit ≡ mul64 backlog 4
        → IsLimited r.inbox
        → IsLimited (act k c a r).inbox
    unfolding act stop
    act-IsLimited (posts client wake) r e h = enqueue-IsLimited r.inbox client wake e h
    act-IsLimited (turns answers reply) r e h = turn-IsLimited answers reply r h
    act-IsLimited stops r e h = h

    run_reactor_within :
        (actions : List Action) (r : Reactor S)
        → limit ≡ mul64 backlog 4
        → IsLimited r.inbox
        → IsLimited (run_reactor k c actions r).inbox
    unfolding run_reactor
    run_reactor_within [] r e h = h
    run_reactor_within (a ∷ more) r e h =
        run_reactor_within more (act k c a r) e (act-IsLimited a r e h)

-- From a queue of at most backlog * 4 clients, in 64 bits, any sequence of posts, turns and stops
-- leaves at most that many, and the backlog as it was.
pub run_reactor-IsLimited :
    (backlog : ℕ) {S : Type 0} (k : Kernel S) (c : Setup) (actions : List Action) (r : Reactor S)
    → r.inbox.backlog ≡ backlog
    → length r.inbox.queue ≤ mul64 backlog 4
    → IsLimited backlog (mul64 backlog 4) (run_reactor k c actions r).inbox
run_reactor-IsLimited backlog k c actions r h g =
    run_reactor_within backlog (mul64 backlog 4) k c actions r refl (h, g)

-- A turn takes clients from the queue, and puts none in.
pub length-turn :
    {S : Type 0} (k : Kernel S) (c : Setup) (answers : AcceptedClient → Answer) (reply : Waited)
    (r : Reactor S)
    → length (turn k c answers reply r).inbox.queue ≤ length r.inbox.queue
length-turn k c answers reply r =
    (turn-IsLimited r.inbox.backlog (length r.inbox.queue) k c answers reply r
      (refl, omega arith)).1
