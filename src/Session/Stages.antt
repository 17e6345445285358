-- ===== src/Session/Stages.antt =====
-- `ProxySession::handleEvent` (src/ProxySession.cpp) up to its last three statements, cut into
-- stages. An early `return` is the error of a result.
use flux_gate.Base.{
  ℕ, Bool, true, false, not, ◌&&◌, ◌||◌, ◌==◌, if◌then◌else◌, Result, ok, err, ◌>>=◌,
}
use flux_gate.Buffer.{is_empty}
use flux_gate.Io.{Kernel}
use flux_gate.Session.Loops.{IoResult, would_block, closed, error, Transfer, read_into, write_from}
use flux_gate.Session.State.{Events, Live, finish_upstream_connect}

abbrev pub peer_hangup : Events → Bool
peer_hangup ev = ev.read_hangup || ev.hangup

-- The end of a read: an error closes the session, an end of file or a hang-up that left nothing
-- to read closes the side.
abbrev pub is_end : Events → IoResult → Bool
is_end ev closed = true
is_end ev would_block = peer_hangup ev
is_end ev _ = false

abbrev pub wants_read : Events → Bool
wants_read ev = ev.readable || ev.read_hangup || ev.hangup

-- What a stage of `handleEvent` gives: it returns, or the next stage goes on.
abbrev pub Stage : Type 0 → Type 0
Stage S = Result (Bool × Live S) (Live S)

module _ {S : Type 0} where
  -- `closing_ = true; return false;`
  abbrev pub stop : Live S → Bool × Live S
  stop l = (false, record l { session = record (l.session) { closing = true } })

  unfoldable pub after_connect : Bool × Live S → Stage S
  after_connect (false, l) = err (stop l)
  after_connect (true, l) = ok l

  abbrev pub client_transfer : Live S → Transfer S
  client_transfer l = record {
    buffer = l.session.client_to_upstream;
    last_activity = l.session.last_activity;
    world = l.world;
  }

  abbrev pub upstream_transfer : Live S → Transfer S
  upstream_transfer l = record {
    buffer = l.session.upstream_to_client;
    last_activity = l.session.last_activity;
    world = l.world;
  }

  abbrev pub with_client_buffer : Live S → Transfer S → Live S
  with_client_buffer l t = record {
    session = record (l.session) { client_to_upstream = t.buffer; last_activity = t.last_activity };
    world = t.world;
  }

  abbrev pub with_upstream_buffer : Live S → Transfer S → Live S
  with_upstream_buffer l t = record {
    session = record (l.session) { upstream_to_client = t.buffer; last_activity = t.last_activity };
    world = t.world;
  }

  unfoldable pub after_client_read : Events → Live S → IoResult × Transfer S → Stage S
  after_client_read ev l (error, t) = err (stop (with_client_buffer l t))
  after_client_read ev l (r, t) =
      let m = with_client_buffer l t in
      ok (record m {
        session = record (m.session) {
          client_read_closed = is_end ev r || m.session.client_read_closed;
        };
      })

  unfoldable pub after_upstream_read : Events → Live S → IoResult × Transfer S → Stage S
  after_upstream_read ev l (error, t) = err (stop (with_upstream_buffer l t))
  after_upstream_read ev l (r, t) =
      let m = with_upstream_buffer l t in
      ok (record m {
        session = record (m.session) {
          upstream_read_closed = is_end ev r || m.session.upstream_read_closed;
        };
      })

  -- A write that fails, or that the peer refuses, closes the session.
  unfoldable pub after_write : IoResult → Live S → Stage S
  after_write error m = err (stop m)
  after_write closed m = err (stop m)
  after_write _ m = ok m

module _ {S : Type 0} (k : Kernel S) where
  unfoldable pub connect_stage : ℕ → Events → Live S → Stage S
  unfolding finish_upstream_connect after_connect
  connect_stage fd ev l =
      if fd == l.session.upstream_fd && l.session.upstream_connecting
      then (if not (ev.writable || ev.failing || ev.hangup)
          then err (true, l)
          else after_connect (finish_upstream_connect k l))
      else ok l

  -- EPOLLERR; the error code goes to the log only.
  unfoldable pub error_stage : ℕ → Events → Live S → Stage S
  error_stage fd ev l =
      if ev.failing
      then err (
          stop
            (record l { world = record (l.world) { kernel = (k.so_error l.world.kernel fd).1 } }))
      else ok l

  unfoldable pub client_read : Events → Live S → Stage S
  unfolding after_client_read
  client_read ev l =
      if not l.session.client_read_closed && wants_read ev
      then after_client_read ev l (read_into k l.session.client_fd true (client_transfer l))
      else ok l

  unfoldable pub client_write : Events → Live S → Stage S
  unfolding after_write
  client_write ev l =
      if ev.writable && not (is_empty l.session.upstream_to_client)
      then (let (r, t) = write_from k l.session.client_fd (upstream_transfer l) in
          after_write r (with_upstream_buffer l t))
      else ok l

  unfoldable pub upstream_read : Events → Live S → Stage S
  unfolding after_upstream_read
  upstream_read ev l =
      if not l.session.upstream_read_closed && wants_read ev
      then after_upstream_read ev l (read_into k l.session.upstream_fd false (upstream_transfer l))
      else ok l

  unfoldable pub upstream_write : Events → Live S → Stage S
  unfolding after_write
  upstream_write ev l =
      if ev.writable && not (is_empty l.session.client_to_upstream)
      then (let (r, t) = write_from k l.session.upstream_fd (client_transfer l) in
          after_write r (with_client_buffer l t))
      else ok l

  unfoldable pub transfer_stage : ℕ → Events → Live S → Stage S
  transfer_stage fd ev l =
      if fd == l.session.client_fd
      then (do m ← client_read ev l; client_write ev m)
      else if fd == l.session.upstream_fd
      then (do m ← upstream_read ev l; upstream_write ev m)
      else err (stop l)
