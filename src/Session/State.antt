-- ===== src/Session/State.antt =====
-- include/fluxgate/ProxySession.h and src/ProxySession.cpp: the state of a session, its
-- constructor, the end of the upstream connect, its timeouts and the events that it waits for.
use flux_gate.Base.{
  ℕ, ◌-◌, Bool, true, false, not, ◌&&◌, ◌||◌, Option, none, some, ltb, leb, ◌==◌, if◌then◌else◌,
}
use flux_gate.Buffer.{ByteBuffer, new_buffer, writable_bytes, is_empty}
use flux_gate.Backend.{Bytes, record_connect_success, record_connect_failure}
use flux_gate.Pool.{Pool, Lease, update_backend}
use flux_gate.Metrics.{on_connect_failure}
use flux_gate.Io.{Kernel, World}

-- A set of epoll bits: EPOLLIN, EPOLLOUT, EPOLLERR, EPOLLHUP, EPOLLRDHUP.
pub record Events : Type 0 where
  pub readable : Bool
  pub writable : Bool
  pub failing : Bool
  pub hangup : Bool
  pub read_hangup : Bool

pub record Session : Type 0 where
  pub id : ℕ
  pub client_fd : ℕ
  pub upstream_fd : ℕ
  pub upstream_connecting : Bool
  pub backend : Lease
  pub client_to_upstream : ByteBuffer
  pub upstream_to_client : ByteBuffer
  pub client_read_closed : Bool
  pub upstream_read_closed : Bool
  pub client_write_shutdown : Bool
  pub upstream_write_shutdown : Bool
  pub closing : Bool
  pub client_address : Bytes
  pub created_at : ℕ
  pub last_activity : ℕ

-- A session in its world.
pub record Live (S : Type 0) : Type 0 where
  pub session : Session
  pub world : World S

-- `backend_->recordConnectSuccess()` and `backend_->recordConnectFailure()`.
unfoldable pub record_success : Lease → Pool → Pool
record_success none p = p
record_success (some i) p = update_backend record_connect_success i p

unfoldable pub record_failure : Lease → Pool → Pool
record_failure none p = p
record_failure (some i) p = update_backend record_connect_failure i p

module _ {S : Type 0} (k : Kernel S) where
  -- The constructor; `backend` is the lease that it takes over.
  unfoldable pub new_session : ℕ → ℕ → ℕ → Bool → Lease → ℕ → Bytes → World S → Live S
  unfolding record_success
  new_session id client upstream connecting backend size address w = record {
    session = record {
      id = id;
      client_fd = client;
      upstream_fd = upstream;
      upstream_connecting = connecting;
      backend = backend;
      client_to_upstream = new_buffer size;
      upstream_to_client = new_buffer size;
      client_read_closed = false;
      upstream_read_closed = false;
      client_write_shutdown = false;
      upstream_write_shutdown = false;
      closing = false;
      client_address = address;
      created_at = k.now w.kernel;
      last_activity = k.now w.kernel;
    };
    world = if connecting then w else record w { pool = record_success backend w.pool };
  }

  -- `ProxySession::touch`.
  unfoldable pub touch : Live S → Live S
  touch l = record l { session = record (l.session) { last_activity = k.now l.world.kernel } }

  -- `ProxySession::finishUpstreamConnect`, from the result of `getsockopt`.
  unfoldable pub connect_result : Live S → Option ℕ × S → Bool × Live S
  unfolding record_success record_failure touch
  connect_result l (none, s) = (
    false,
    record l {
      world = record (l.world) {
        kernel = s;
        pool = record_failure l.session.backend l.world.pool;
        metrics = on_connect_failure l.world.metrics;
      };
    },
  )
  connect_result l (some e, s) =
      if not (e == 0)
      then (
        false,
        record l {
          world = record (l.world) {
            kernel = s;
            pool = record_failure l.session.backend l.world.pool;
            metrics = on_connect_failure l.world.metrics;
          };
        },
      )
      else (
        true,
        touch (record {
          session = record (l.session) { upstream_connecting = false };
          world = record (l.world) {
            kernel = s;
            pool = record_success l.session.backend l.world.pool;
          };
        }),
      )

  unfoldable pub finish_upstream_connect : Live S → Bool × Live S
  unfolding connect_result
  finish_upstream_connect l = connect_result l (k.so_error l.world.kernel l.session.upstream_fd)

unfoldable pub idle_for : Session → ℕ → ℕ → Bool
idle_for s now timeout = leb timeout (now - s.last_activity)

unfoldable pub connect_timed_out : Session → ℕ → ℕ → Bool
connect_timed_out s now timeout = s.upstream_connecting && leb timeout (now - s.created_at)

-- `ProxySession::clientEvents` and `ProxySession::upstreamEvents`.
unfoldable pub client_events : Session → Events
client_events s = record {
  readable = not s.client_read_closed && ltb 0 (writable_bytes s.client_to_upstream);
  writable = not (is_empty s.upstream_to_client);
  failing = false;
  hangup = false;
  read_hangup = true;
}

unfoldable pub upstream_events : Session → Events
upstream_events s = record {
  readable =
      not s.upstream_connecting
      && not s.upstream_read_closed
      && ltb 0 (writable_bytes s.upstream_to_client);
  writable = s.upstream_connecting || not (is_empty s.client_to_upstream);
  failing = false;
  hangup = false;
  read_hangup = true;
}
