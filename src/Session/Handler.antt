-- ===== src/Session/Handler.antt =====
-- `ProxySession::handleEvent`, `updateHalfClose` and `completed` (src/ProxySession.cpp).
use flux_gate.Base.{
  List, [], ◌∷◌, ℕ, Bool, true, false, not, ◌&&◌, if◌then◌else◌, ok, err, ◌>>=◌, ◌∷◌,
}
use flux_gate.Buffer.{is_empty}
use flux_gate.Io.{Kernel, World, shuts}
use flux_gate.Session.State.{Events, Session, Live}
use flux_gate.Session.Stages.{Stage, stop, connect_stage, error_stage, transfer_stage}

-- `ProxySession::completed`.
unfoldable pub is_completed : Session → Bool
is_completed s = s.upstream_read_closed && is_empty s.upstream_to_client

abbrev pub returned : {S : Type 0} → Stage S → Bool × Live S
returned (err r) = r
returned (ok l) = (true, l)

module _ {S : Type 0} (k : Kernel S) where
  -- `shutdown(fd, SHUT_WR)`.
  abbrev pub shut : ℕ → World S → World S
  shut fd w = record w { kernel = k.shut_write w.kernel fd; trace = shuts fd ∷ w.trace }

  -- The two halves of `ProxySession::updateHalfClose`.
  unfoldable pub shut_upstream : Live S → Live S
  shut_upstream l =
      if l.session.client_read_closed
        && is_empty l.session.client_to_upstream
        && not l.session.upstream_write_shutdown
        && not l.session.upstream_connecting
      then record {
        session = record (l.session) { upstream_write_shutdown = true };
        world = shut l.session.upstream_fd l.world;
      }
      else l

  unfoldable pub shut_client : Live S → Live S
  shut_client l =
      if l.session.upstream_read_closed
        && is_empty l.session.upstream_to_client
        && not l.session.client_write_shutdown
      then record {
        session = record (l.session) { client_write_shutdown = true };
        world = shut l.session.client_fd l.world;
      }
      else l

  unfoldable pub update_half_close : Live S → Live S
  unfolding shut_upstream shut_client
  update_half_close l = shut_client (shut_upstream l)

  unfoldable pub finish_stage : Live S → Stage S
  unfolding update_half_close is_completed
  finish_stage l =
      let m = update_half_close l in if is_completed m.session then err (stop m) else ok m

  unfoldable pub handle_stages : ℕ → Events → Live S → Stage S
  handle_stages fd ev l = do
    m ← connect_stage k fd ev l
    n ← error_stage k fd ev m
    o ← transfer_stage k fd ev n
    finish_stage o

  -- `ProxySession::handleEvent`: whether the session goes on.
  unfoldable pub handle_event : ℕ → Events → Live S → Bool × Live S
  unfolding handle_stages
  handle_event fd ev l = if l.session.closing then (false, l) else returned (handle_stages fd ev l)

  -- The events of a session's life, one after the other.
  unfoldable pub run_events : List (ℕ × Events) → Live S → Live S
  run_events [] l = l
  run_events ((fd, ev) ∷ es) l = run_events es (handle_event fd ev l).1
