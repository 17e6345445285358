-- ===== src/Worker/Interest.antt =====
-- The epoll set of a worker (src/Worker.cpp): `registerFd`, `modifyFd`, `unregisterFd` and
-- `updateInterests`. Whether `epoll_ctl` succeeds is input; a failure throws.
use flux_gate.Base.{ℕ, Bool, true, false, List, [], ◌∷◌, ◌==◌, if◌then◌else◌}
use flux_gate.Session.State.{Events, Session, client_events, upstream_events}

-- The descriptors that the epoll instance watches, with the events it waits for.
abbrev pub Interest : Type 0
Interest = List (ℕ × Events)

unfoldable pub register_fd : Bool → ℕ → Events → Interest → Bool × Interest
register_fd ctl fd ev m = if ctl then (true, (fd, ev) ∷ m) else (false, m)

abbrev pub set_interest : ℕ → Events → Interest → Interest
set_interest fd ev [] = []
set_interest fd ev ((f, old) ∷ m) = if f == fd then (f, ev) ∷ m else (f, old) ∷ set_interest fd ev m

unfoldable pub modify_fd : Bool → ℕ → Events → Interest → Bool × Interest
modify_fd ctl fd ev m = if ctl then (true, set_interest fd ev m) else (false, m)

abbrev pub unregister_fd : ℕ → Interest → Interest
unregister_fd fd [] = []
unregister_fd fd ((f, ev) ∷ m) = if f == fd then m else (f, ev) ∷ unregister_fd fd m

-- The two registrations of `Worker::createSession`: the second is not tried if the first fails.
unfoldable pub register_session : Bool × Bool → Session → Interest → Bool × Interest
unfolding register_fd
register_session (client, upstream) s m =
    let first = register_fd client s.client_fd (client_events s) m in
    if first.0 then register_fd upstream s.upstream_fd (upstream_events s) first.1 else first

-- `Worker::updateInterests`.
unfoldable pub update_interests : Bool × Bool → Session → Interest → Bool × Interest
unfolding modify_fd
update_interests (client, upstream) s m =
    let first = modify_fd client s.client_fd (client_events s) m in
    if first.0 then modify_fd upstream s.upstream_fd (upstream_events s) first.1 else first

unfoldable pub unregister_session : Session → Interest → Interest
unregister_session s m = unregister_fd s.upstream_fd (unregister_fd s.client_fd m)
