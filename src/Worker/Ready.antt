-- ===== src/Worker/Ready.antt =====
-- An event on a descriptor of a session in `Worker::run` (src/Worker.cpp). What `epoll_ctl` returns
-- is input.
use flux_gate.Base.{ℕ, Bool, true, not, List, [], ◌∷◌, Option, none, some, ◌==◌, if◌then◌else◌}
use flux_gate.Io.{Kernel}
use flux_gate.Session.State.{Events, Session, Live}
use flux_gate.Session.Handler.{handle_event}
use flux_gate.Worker.Interest.{Interest, update_interests}
use flux_gate.Worker.Sessions.{Worker, find_session}

abbrev pub find_fd : ℕ → List (ℕ × ℕ) → Option ℕ
find_fd fd [] = none
find_fd fd ((f, id) ∷ m) = if f == fd then some id else find_fd fd m

-- The state of the session that the maps share.
abbrev pub replace_session : Session → List Session → List Session
replace_session s [] = []
replace_session s (t ∷ ts) = if t.id == s.id then s ∷ ts else t ∷ replace_session s ts

-- `ProxySession::markClosing`.
unfoldable pub mark_closing : Session → Session
mark_closing s = record s { closing = true }

module _ {S : Type 0} (k : Kernel S) where
  -- A session whose interests could not be updated is closed at the end of the batch.
  unfoldable pub after_update : Bool × Interest → Session → Worker S → Worker S
  unfolding mark_closing
  after_update (updated, m) s w = record w {
    sessions = replace_session (if updated then s else mark_closing s) w.sessions;
    interest = m;
  }

  -- With what `handleEvent` returns and leaves.
  unfoldable pub settle_session : Bool × Bool → Bool × Live S → Worker S → Worker S
  unfolding mark_closing after_update update_interests
  settle_session modified (alive, l) w =
      if not alive
      then record w {
        sessions = replace_session (mark_closing l.session) w.sessions;
        world = l.world;
      }
      else after_update (update_interests modified l.session w.interest) l.session
          (record w { world = l.world })

  unfoldable pub serve_session : ℕ → Events → Bool × Bool → Session → Worker S → Worker S
  unfolding settle_session
  serve_session fd ev modified s w =
      if s.closing
      then w
      else settle_session modified (handle_event k fd ev (record { session = s; world = w.world }))
          w

  unfoldable pub serve_id : ℕ → Events → Bool × Bool → Option ℕ → Worker S → Worker S
  unfolding serve_session
  serve_id fd ev modified none w = w
  serve_id fd ev modified (some id) w = elim (find_session id w.sessions) [
    | none ↦ w
    | some s ↦ serve_session fd ev modified s w
  ]

  unfoldable pub serve_fd : ℕ → Events → Bool × Bool → Worker S → Worker S
  unfolding serve_id
  serve_fd fd ev modified w = serve_id fd ev modified (find_fd fd w.fd_to_session) w
