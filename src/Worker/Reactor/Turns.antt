-- ===== src/Worker/Reactor/Turns.antt =====
-- What the turns of `Worker::run` (src/Worker.cpp) keep.
use flux_gate.Base.{
  ℕ, suc, ◌+◌, ◌-◌, ◌<◌, ◌≤◌, ◌≡◌, refl, inl, inr, Bool, true, false, not, List, [], ◌∷◌, length,
  ◌==◌, leb, mul64, if◌then◌else◌, arith, word_mod, length-append, Bool-cases,
}
use flux_gate.Pool.{Lease}
use flux_gate.Io.{Kernel, IsKernel}
use flux_gate.Worker.Queue.{AcceptedClient, Inbox, WakeReply, enqueue}
use flux_gate.Worker.Sessions.{Worker, close_ended, closing_ids}
use flux_gate.Worker.Reactor.Served.{IsServed, serve_fd-IsServed}
use flux_gate.Worker.Reactor.Closed.{close_sessions-IsServed, sweep_sessions-IsServed}
use flux_gate.Worker.Reactor.Taken.{take_clients-IsServed, close_clients-IsServed}
use flux_gate.Worker.Reactor.{
  Setup, Answer, Signal, Waited, ready, interrupted, failed, Reactor, drain_queue, handle_signal,
  handle_signals, sweep_due, end_batch, empty_queue, session_ids, close_remaining, shut_down,
  after_wait, turn, stop, Action, posts, turns, stops, act, run_reactor,
}

pub length-enqueue :
    (w : Inbox) (client : AcceptedClient) (wake : WakeReply)
    → length (enqueue w client wake).1.queue ≤ suc (length w.queue)
unfolding enqueue
length-enqueue w client wake = elim (Bool-cases w.running) [
  | inr stopped ↦ rw stopped (omega arith)
  | inl on ↦ elim (Bool-cases (leb (mul64 w.backlog 4) (length w.queue))) [
    | inl full ↦ rw (on, full) (omega arith)
    | inr room ↦ rw (on, room) (omega (arith, length-append w.queue (client ∷ [])))
  ]
]

-- The sessions made and the clients that wait are `m` at most.
pub record IsRunning {S : Type 0} (others : List Lease) (m : ℕ) (r : Reactor S) : Type 0 where
  pub made : ℕ
  pub served : IsServed others made r.worker
  pub room : made + length r.inbox.queue ≤ m

module _ {S : Type 0} {others : List Lease} (k : Kernel S) (law : IsKernel k) (c : Setup)
    (fits : c.buffer_size < word_mod) where
  module _ (m : ℕ) (small : suc m < 1_000_000_000_000) where
    drain_queue-IsRunning :
        (answers : AcceptedClient → Answer) (r : Reactor S)
        → IsRunning others m r
        → IsRunning others m (drain_queue k c answers r)
    unfolding drain_queue
    drain_queue-IsRunning answers r h =
        let n : ℕ = h.made + length r.inbox.queue in
        record {
          made = n;
          served =
              take_clients-IsServed k law c fits answers r.inbox.queue h.made n r.worker refl
                (omega (arith, h.room, small)) h.served;
          room = omega (arith, h.room);
        }

    -- A step of the worker alone.
    same_queue :
        (r : Reactor S) (w : Worker S) (at : ℕ)
        → ((n : ℕ) → n < 1_000_000_000_000 → IsServed others n r.worker → IsServed others n w)
        → IsRunning others m r
        → IsRunning others m (record r { worker = w; last_sweep = at })
    same_queue r w at keeps h = record {
      made = h.made;
      served = keeps h.made (omega (arith, h.room, small)) h.served;
      room = h.room;
    }

    IsRunning-if :
        (t : Bool) (x y : Reactor S)
        → IsRunning others m x
        → IsRunning others m y
        → IsRunning others m (if t then x else y)
    IsRunning-if true x y h g = h
    IsRunning-if false x y h g = g

    handle_signal-IsRunning :
        (g : Signal) (r : Reactor S)
        → IsRunning others m r
        → IsRunning others m (handle_signal k c g r)
    unfolding handle_signal
    handle_signal-IsRunning g r h =
        IsRunning-if (g.fd == c.wake_fd) _ _ (drain_queue-IsRunning g.answers r h) (
          same_queue r _ r.last_sweep
            (λ n s. serve_fd-IsServed k law n g.fd g.events g.modified r.worker) h)

    handle_signals-IsRunning :
        (gs : List Signal) (r : Reactor S)
        → IsRunning others m r
        → IsRunning others m (handle_signals k c gs r)
    unfolding handle_signals
    handle_signals-IsRunning [] r h = h
    handle_signals-IsRunning (g ∷ gs) r h =
        handle_signals-IsRunning gs _ (handle_signal-IsRunning g r h)

    end_batch-IsRunning :
        (r : Reactor S) → IsRunning others m r → IsRunning others m (end_batch k c r)
    unfolding end_batch sweep_due close_ended
    end_batch-IsRunning r h =
        let closed =
          same_queue r _ r.last_sweep
            (λ n s. close_sessions-IsServed k n s (closing_ids k r.worker.sessions) r.worker) h in
        let w = close_ended k r.worker in
        let now : ℕ = k.now w.world.kernel in
        IsRunning-if (leb c.second (now - r.last_sweep)) _ _
          (same_queue (record r { worker = w }) _ now
            (λ n s. sweep_sessions-IsServed k n s c.connect_limit c.idle_limit w) closed)
          closed

    pub shut_down-IsRunning :
        (answers : AcceptedClient → Answer) (r : Reactor S)
        → IsRunning others m r
        → IsRunning others m (shut_down k c answers r)
    unfolding shut_down empty_queue close_remaining
    shut_down-IsRunning answers r h =
        let d = drain_queue-IsRunning answers r h in
        let q : List AcceptedClient = (drain_queue k c answers r).inbox.queue in
        let small' : suc d.made < 1_000_000_000_000 = omega (arith, d.room, small) in
        record {
          made = d.made;
          served =
              close_sessions-IsServed k d.made (omega (arith, small'))
                (session_ids (empty_queue k c (drain_queue k c answers r)).worker.sessions) _
                (close_clients-IsServed k law c fits d.made q _ small' d.served);
          room = omega (arith, d.room);
        }

    after_wait-IsRunning :
        (answers : AcceptedClient → Answer) (reply : Waited) (r : Reactor S)
        → IsRunning others m r
        → IsRunning others m (after_wait k c answers reply r)
    unfolding after_wait
    after_wait-IsRunning answers (ready gs) r h =
        end_batch-IsRunning _ (handle_signals-IsRunning gs r h)
    after_wait-IsRunning answers interrupted r h = h
    after_wait-IsRunning answers failed r h = shut_down-IsRunning answers r h

    turn-IsRunning :
        (answers : AcceptedClient → Answer) (reply : Waited) (r : Reactor S)
        → IsRunning others m r
        → IsRunning others m (turn k c answers reply r)
    unfolding turn
    turn-IsRunning answers reply r h = IsRunning-if (not r.looping) _ _ h (
        IsRunning-if (not r.inbox.running) _ _ (shut_down-IsRunning answers r h)
          (after_wait-IsRunning answers reply r h))

  pub act-IsRunning :
      (m : ℕ) (a : Action) (r : Reactor S)
      → suc m < 1_000_000_000_000
      → IsRunning others m r
      → IsRunning others (suc m) (act k c a r)
  unfolding act stop
  act-IsRunning m (posts client wake) r small h = record {
    made = h.made;
    served = h.served;
    room = omega (arith, h.room, length-enqueue r.inbox client wake);
  }
  act-IsRunning m (turns answers reply) r small h =
      let t = turn-IsRunning m small answers reply r h in
      record { made = t.made; served = t.served; room = omega (arith, t.room) }
  act-IsRunning m stops r small h = record {
    made = h.made;
    served = h.served;
    room = omega (arith, h.room);
  }

  pub run_reactor-IsRunning :
      (actions : List Action) (m n : ℕ) (r : Reactor S)
      → m + length actions ≡ n
      → n < 1_000_000_000_000
      → IsRunning others m r
      → IsRunning others n (run_reactor k c actions r)
  unfolding run_reactor
  run_reactor-IsRunning [] m n r e small h = record {
    made = h.made;
    served = h.served;
    room = omega (arith, h.room, e);
  }
  run_reactor-IsRunning (a ∷ more) m n r e small h =
      run_reactor-IsRunning more (suc m) n _ (omega (arith, e)) small
        (act-IsRunning m a r (omega (arith, e, small)) h)
