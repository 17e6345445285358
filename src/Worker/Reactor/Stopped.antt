-- ===== src/Worker/Reactor/Stopped.antt =====
-- A worker from its start to its end (src/Worker.cpp).
use flux_gate.Base.{
  ℕ, suc, ◌+◌, ◌<◌, ◌≡◌, refl, ap, ◌∙◌, true, false, List, [], ◌∷◌, some, length, ==_refl, arith,
  word_mod,
}
use flux_gate.Pool.{Lease}
use flux_gate.Pool.Leases.{Tally}
use flux_gate.Io.{Kernel, IsKernel}
use flux_gate.Session.State.{Session}
use flux_gate.Worker.Queue.{AcceptedClient}
use flux_gate.Worker.Sessions.{
  Worker, find_session, erase_session, destroy_session, remove_session, close_session,
  close_sessions,
}
use flux_gate.Worker.Books.{leases}
use flux_gate.Worker.Reactor.Served.{occurs, holds}
use flux_gate.Worker.Reactor.Turns.{IsRunning, shut_down-IsRunning, run_reactor-IsRunning}
use flux_gate.Worker.Reactor.{
  Setup, Answer, Waited, Reactor, drain_queue, empty_queue, session_ids, close_remaining, shut_down,
  turn, stop, Action, run_reactor,
}

-- A worker that has just been made, with a pool whose connections are those of the other workers.
pub record IsFresh {S : Type 0} (others : List Lease) (r : Reactor S) : Type 0 where
  pub no_sessions : r.worker.sessions ≡ []
  pub none_active : r.worker.active_sessions ≡ 0
  pub first_id : r.worker.next_session_id ≡ 1
  pub none_taken : r.worker.taken ≡ []
  pub none_closed : r.worker.closed ≡ []
  pub no_clients : r.inbox.queue ≡ []
  pub shared_pool : Tally r.worker.world.pool others

IsFresh-IsRunning :
    {S : Type 0} (others : List Lease) (r : Reactor S)
    → IsFresh others r
    → IsRunning others (length others) r
IsFresh-IsRunning others r h = record {
  made = length others;
  served = record {
    booked = record {
      tally = rw h.no_sessions h.shared_pool;
      active = rw h.no_sessions h.none_active;
      known = rw h.no_sessions tt;
      few = rw h.no_sessions (omega arith);
      given = omega (arith, h.first_id);
    };
    valid = rw h.no_sessions tt;
    kept = λ f. rw (h.no_sessions, h.none_closed, h.none_taken) (omega arith);
  };
  room = rw h.no_clients (omega arith);
}

module _ {S : Type 0} (k : Kernel S) where
  close_session-head :
      (s : Session) (ss : List Session) (w : Worker S)
      → w.sessions ≡ s ∷ ss
      → (close_session k s.id w).sessions ≡ ss
  unfolding close_session remove_session destroy_session
  close_session-head s ss w h =
      let found : find_session s.id w.sessions ≡ some s = rw (h, ==_refl s.id) refl in
      let left : erase_session s.id w.sessions ≡ ss = rw (h, ==_refl s.id) refl in
      rw (found, close_session) left

  pub close_sessions-session_ids :
      (ss : List Session) (w : Worker S)
      → w.sessions ≡ ss
      → (close_sessions k (session_ids ss) w).sessions ≡ []
  unfolding close_sessions
  close_sessions-session_ids [] w h = h
  close_sessions-session_ids (s ∷ ss) w h =
      close_sessions-session_ids ss _ (close_session-head s ss w h)

  module _ (c : Setup) (answers : AcceptedClient → Answer) where
    pub shut_down-sessions : (r : Reactor S) → (shut_down k c answers r).worker.sessions ≡ []
    unfolding shut_down close_remaining
    shut_down-sessions r =
        close_sessions-session_ids _ (empty_queue k c (drain_queue k c answers r)).worker refl

    pub shut_down-queue : (r : Reactor S) → (shut_down k c answers r).inbox.queue ≡ []
    unfolding shut_down empty_queue
    shut_down-queue r = refl

    pub shut_down-looping : (r : Reactor S) → (shut_down k c answers r).looping ≡ false
    unfolding shut_down
    shut_down-looping r = refl

    pub turn-stop :
        (reply : Waited) (r : Reactor S)
        → r.looping ≡ true
        → turn k c answers reply (stop r) ≡ shut_down k c answers (stop r)
    unfolding turn stop
    turn-stop reply r on = rw (on, turn) refl

-- A worker that has ended: its maps and its queue are empty, the backends' counts are those of the
-- others' leases, and each descriptor that the worker has taken is closed, as often as it was taken.
pub record IsOver {S : Type 0} (others : List Lease) (r : Reactor S) : Type 0 where
  pub ended : r.looping ≡ false
  pub no_clients : r.inbox.queue ≡ []
  pub no_sessions : r.worker.sessions ≡ []
  pub none_active : r.worker.active_sessions ≡ 0
  pub shared_pool : Tally r.worker.world.pool others
  pub all_closed : (f : ℕ) → occurs f r.worker.closed ≡ occurs f r.worker.taken

module _ {S : Type 0} (k : Kernel S) (law : IsKernel k) (c : Setup) (others : List Lease)
    (fits : c.buffer_size < word_mod) where
  shut_down-IsOver :
      (answers : AcceptedClient → Answer) (m : ℕ) (r : Reactor S)
      → suc m < 1_000_000_000_000
      → IsRunning others m r
      → IsOver others (shut_down k c answers r)
  shut_down-IsOver answers m r small h =
      let e = shut_down-sessions k c answers r in
      let g = (shut_down-IsRunning k law c fits m small answers r h).served in
      record {
        ended = shut_down-looping k c answers r;
        no_clients = shut_down-queue k c answers r;
        no_sessions = e;
        none_active = g.booked.active ∙ ap length e;
        shared_pool = rw e at g.booked.tally;
        all_closed = λ f. omega (arith, g.kept f, ap (holds f) e);
      }

  -- On a lawful kernel, with buffers of fewer than 2 ^ 64 bytes, from a fresh worker and a pool
  -- whose counts are those of other workers' leases: after steps that with those leases are fewer
  -- than 10 ^ 12 (clients posted, turns of the loop with any events and replies, stops) the
  -- worker's count is the number of its sessions, each backend's active count is the number of
  -- the others' leases and of its sessions that hold that backend, and each descriptor that the
  -- worker has taken is held by a session or closed, as often as it was taken.
  pub run_reactor-count :
      (actions : List Action) (r : Reactor S)
      → length actions + length others < 1_000_000_000_000
      → IsFresh others r
      → ((run_reactor k c actions r).worker.active_sessions
          ≡ length (run_reactor k c actions r).worker.sessions)
        × Tally
            (run_reactor k c actions r).worker.world.pool
            (leases others (run_reactor k c actions r).worker.sessions)
        × ((f : ℕ)
            → holds f (run_reactor k c actions r).worker.sessions
                + occurs f (run_reactor k c actions r).worker.closed
              ≡ occurs f (run_reactor k c actions r).worker.taken)
  run_reactor-count actions r small fresh =
      let g =
        (run_reactor-IsRunning k law c fits actions (length others) (length others + length actions)
          r refl (omega (arith, small)) (IsFresh-IsRunning others r fresh)).served in
      (g.booked.active, g.booked.tally, g.kept)

  -- On a lawful kernel, with buffers of fewer than 2 ^ 64 bytes, from a fresh worker and a pool
  -- whose counts are those of other workers' leases: if after steps that with those leases are
  -- fewer than 10 ^ 12 - 1 the thread still loops, the turn after a stop ends it with no client
  -- in the queue, no session, a count of 0, the backends' counts those of the others' leases
  -- again, and each descriptor that it has taken closed as often as it was taken.
  pub turn-stop-IsOver :
      (actions : List Action) (answers : AcceptedClient → Answer) (reply : Waited) (r : Reactor S)
      → suc (length actions + length others) < 1_000_000_000_000
      → IsFresh others r
      → (run_reactor k c actions r).looping ≡ true
      → IsOver others (turn k c answers reply (stop (run_reactor k c actions r)))
  unfolding stop
  turn-stop-IsOver actions answers reply r small fresh on =
      let n : ℕ = length others + length actions in
      let q = run_reactor k c actions r in
      let h =
        run_reactor-IsRunning k law c fits actions (length others) n r refl (omega (arith, small))
          (IsFresh-IsRunning others r fresh) in
      rw (turn-stop k c answers reply q on)
        (shut_down-IsOver answers n (stop q) (omega (arith, small)) (stopped n q h))
    where
      stopped : (n : ℕ) (q : Reactor S) → IsRunning others n q → IsRunning others n (stop q)
      stopped n q h = record { made = h.made; served = h.served; room = h.room }
