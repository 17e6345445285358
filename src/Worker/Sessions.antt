-- ===== src/Worker/Sessions.antt =====
-- The sessions of a worker (src/Worker.cpp): `createSession`, `closeSession`, the closing at the end
-- of a batch of events, `sweepIdleSessions`. What connectNonBlocking() and epoll_ctl() return is
-- input. A session that leaves the maps is destroyed at once: its lease is reset and its two
-- descriptors are closed.
use flux_gate.Base.{
  ℕ, Bool, not, ◌||◌, List, [], ◌∷◌, Option, none, some, ◌==◌, if◌then◌else◌, add64, sub64,
}
use flux_gate.Pool.{Pool, Lease, acquire, reset_lease}
use flux_gate.Metrics.{on_opened, on_closed, on_rejected, on_connect_failure}
use flux_gate.Io.{Kernel, World}
use flux_gate.Session.State.{Session, new_session, record_failure, idle_for, connect_timed_out}
use flux_gate.Worker.Queue.{AcceptedClient}
use flux_gate.Worker.Interest.{Interest, register_session, unregister_session}

-- `fdToSession_` maps a descriptor to the id of its session, `sessions_` holds the sessions.
-- `taken` and `closed` record the descriptors that the worker has become the owner of and those
-- that it has closed, newest first; the code does not read them.
pub record Worker (S : Type 0) : Type 0 where
  pub fd_to_session : List (ℕ × ℕ)
  pub sessions : List Session
  pub active_sessions : ℕ
  pub next_session_id : ℕ
  pub interest : Interest
  pub taken : List ℕ
  pub closed : List ℕ
  pub world : World S

-- The descriptor of a connection to the backend and whether it is still pending, or a failure.
abbrev pub ConnectReply : Type 0
ConnectReply = Option (ℕ × Bool)

abbrev pub find_session : ℕ → List Session → Option Session
find_session id [] = none
find_session id (s ∷ ss) = if s.id == id then some s else find_session id ss

abbrev pub erase_session : ℕ → List Session → List Session
erase_session id [] = []
erase_session id (s ∷ ss) = if s.id == id then ss else s ∷ erase_session id ss

abbrev pub erase_fd : ℕ → List (ℕ × ℕ) → List (ℕ × ℕ)
erase_fd fd [] = []
erase_fd fd ((f, id) ∷ m) = if f == fd then m else (f, id) ∷ erase_fd fd m

abbrev pub assign_fd : ℕ → ℕ → List (ℕ × ℕ) → List (ℕ × ℕ)
assign_fd fd id m = (fd, id) ∷ erase_fd fd m

module _ {S : Type 0} (k : Kernel S) where
  -- The destructor of a session.
  unfoldable pub destroy_session : Session → Worker S → Worker S
  destroy_session s w = record w {
    closed = s.client_fd ∷ s.upstream_fd ∷ w.closed;
    world = record (w.world) { pool = (reset_lease s.backend w.world.pool).0 };
  }

  -- Once the registrations are tried: the session enters the maps, or is destroyed.
  unfoldable pub publish_registered : Bool × Interest → Session → Worker S → Worker S
  unfolding destroy_session unregister_session
  publish_registered (registered, m) s w =
      if not registered
      then destroy_session s (record w {
        interest = unregister_session s m;
        world = record (w.world) { metrics = on_rejected w.world.metrics };
      })
      else record w {
        fd_to_session = assign_fd s.upstream_fd s.id (assign_fd s.client_fd s.id w.fd_to_session);
        sessions = s ∷ erase_session s.id w.sessions;
        active_sessions = add64 w.active_sessions 1;
        interest = m;
        world = record (w.world) { metrics = on_opened w.world.metrics };
      }

  unfoldable pub publish_session : Bool × Bool → Session → Worker S → Worker S
  unfolding publish_registered register_session
  publish_session registered s w = publish_registered (register_session registered s w.interest) s w

  -- With the lease of backend `i`, and the reply of the connect.
  unfoldable pub connect_session :
      ℕ → AcceptedClient → ℕ → ConnectReply → Bool × Bool → Worker S → Worker S
  unfolding record_failure publish_session new_session
  connect_session size client i none registered w = record w {
    closed = client.fd ∷ w.closed;
    world = record (w.world) {
      pool = (reset_lease (some i) (record_failure (some i) w.world.pool)).0;
      metrics = on_rejected (on_connect_failure w.world.metrics);
    };
  }
  connect_session size client i (some (fd, connecting)) registered w =
      let live =
        new_session k w.next_session_id client.fd fd connecting (some i) size client.address
          w.world in
      publish_session registered live.session (record w {
        next_session_id = add64 w.next_session_id 1;
        taken = fd ∷ w.taken;
        world = live.world;
      })

  -- With what `acquire` gives.
  unfoldable pub lease_session :
      ℕ → AcceptedClient → ConnectReply → Bool × Bool → Worker S → Pool × Lease → Worker S
  unfolding connect_session
  lease_session size client reply registered w (p, none) = record w {
    closed = client.fd ∷ w.closed;
    world = record (w.world) { pool = p; metrics = on_rejected w.world.metrics };
  }
  lease_session size client reply registered w (p, some i) =
      connect_session size client i reply registered
        (record w { world = record (w.world) { pool = p } })

  -- `Worker::createSession`; `size` is the configured size of the buffers.
  unfoldable pub create_session :
      ℕ → AcceptedClient → ConnectReply → Bool × Bool → Worker S → Worker S
  unfolding lease_session
  create_session size client reply registered w =
      lease_session size client reply registered (record w { taken = client.fd ∷ w.taken })
        (acquire w.world.pool)

  unfoldable pub remove_session : Session → Worker S → Worker S
  unfolding destroy_session unregister_session
  remove_session s w = destroy_session s (record w {
    fd_to_session = erase_fd s.upstream_fd (erase_fd s.client_fd w.fd_to_session);
    sessions = erase_session s.id w.sessions;
    active_sessions = sub64 w.active_sessions 1;
    interest = unregister_session s w.interest;
    world = record (w.world) { metrics = on_closed w.world.metrics };
  })

  -- `Worker::closeSession`, by the id.
  unfoldable pub close_session : ℕ → Worker S → Worker S
  unfolding remove_session
  close_session id w = elim (find_session id w.sessions) [ none ↦ w | some s ↦ remove_session s w ]

  unfoldable pub close_sessions : List ℕ → Worker S → Worker S
  unfolding close_session
  close_sessions [] w = w
  close_sessions (id ∷ ids) w = close_sessions ids (close_session id w)

  -- The end of a batch in `Worker::run`.
  abbrev pub closing_ids : List Session → List ℕ
  closing_ids [] = []
  closing_ids (s ∷ ss) = if s.closing then s.id ∷ closing_ids ss else closing_ids ss

  unfoldable pub close_ended : Worker S → Worker S
  unfolding close_sessions
  close_ended w = close_sessions (closing_ids w.sessions) w

  -- The scan of `Worker::sweepIdleSessions` at time `now`: a connect that has taken too long is
  -- charged to its backend.
  unfoldable pub charge_timeout : ℕ → ℕ → Session → World S → World S
  unfolding record_failure
  charge_timeout now limit s v =
      if connect_timed_out s now limit
      then record v {
        pool = record_failure s.backend v.pool;
        metrics = on_connect_failure v.metrics;
      }
      else v

  unfoldable pub charge_timeouts : ℕ → ℕ → List Session → World S → World S
  unfolding charge_timeout
  charge_timeouts now limit [] v = v
  charge_timeouts now limit (s ∷ ss) v = charge_timeouts now limit ss (charge_timeout now limit s v)

  abbrev pub expired_ids : ℕ → ℕ → ℕ → List Session → List ℕ
  expired_ids now limit idle [] = []
  expired_ids now limit idle (s ∷ ss) =
      if connect_timed_out s now limit || idle_for s now idle
      then s.id ∷ expired_ids now limit idle ss
      else expired_ids now limit idle ss

  -- `Worker::sweepIdleSessions`, with the two timeouts in the clock's unit.
  unfoldable pub sweep_sessions : ℕ → ℕ → Worker S → Worker S
  unfolding charge_timeouts close_sessions
  sweep_sessions limit idle w =
      let now : ℕ = k.now w.world.kernel in
      close_sessions (expired_ids now limit idle w.sessions)
        (record w { world = charge_timeouts now limit w.sessions w.world })
