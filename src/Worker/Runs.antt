-- ===== src/Worker/Runs.antt =====
-- A worker (src/Worker.cpp) over any sequence of its operations on sessions.
use flux_gate.Base.{
  refl, ℕ, suc, ◌+◌, ◌<◌, ◌≡◌, inl, inr, Bool, List, [], ◌∷◌, some, length, arith, sub64-eq,
  Bool-cases, Option-cases,
}
use flux_gate.Pool.{Lease}
use flux_gate.Pool.Leases.{Tally, Tally-reset}
use flux_gate.Io.{Kernel, World}
use flux_gate.Session.State.{Session, connect_timed_out}
use flux_gate.Worker.Queue.{AcceptedClient}
use flux_gate.Worker.Sessions.{
  Worker, ConnectReply, find_session, erase_session, destroy_session, create_session,
  remove_session, close_session, close_sessions, close_ended, charge_timeouts, charge_timeout,
  expired_ids, closing_ids, sweep_sessions,
}
use flux_gate.Worker.Books.{
  leases, IsBooked, length-leases, erase_found, AllBelow-erase, Tally-failure,
  create_session-IsBooked,
}

module _ {S : Type 0} (k : Kernel S) where
  charge_timeout-Tally :
      (now limit : ℕ) (s : Session) (v : World S) (ls : List Lease)
      → Tally v.pool ls
      → Tally (charge_timeout k now limit s v).pool ls
  unfolding charge_timeout
  charge_timeout-Tally now limit s v ls h = elim (Bool-cases (connect_timed_out s now limit)) [
    | inl late ↦ rw (late, charge_timeout) (Tally-failure v.pool ls h s.backend)
    | inr well ↦ rw (well, charge_timeout) h
  ]

  pub charge_timeouts-Tally :
      (now limit : ℕ) (ss : List Session) (v : World S) (ls : List Lease)
      → Tally v.pool ls
      → Tally (charge_timeouts k now limit ss v).pool ls
  unfolding charge_timeouts
  charge_timeouts-Tally now limit [] v ls h = h
  charge_timeouts-Tally now limit (s ∷ ss) v ls h =
      charge_timeouts-Tally now limit ss (charge_timeout k now limit s v) ls
        (charge_timeout-Tally now limit s v ls h)

module _ {S : Type 0} {others : List Lease} (k : Kernel S) (n : ℕ)
    (small : n < 1_000_000_000_000) where
  remove_session-IsBooked :
      (id : ℕ) (s : Session) (w : Worker S)
      → find_session id w.sessions ≡ some s
      → IsBooked others n w
      → IsBooked others n (remove_session k s w)
  unfolding remove_session destroy_session
  remove_session-IsBooked id s w at r =
      let (same, shorter, fall) = erase_found id w.sessions s at in
      rw same (record {
        tally =
            Tally-reset w.world.pool (leases others w.sessions) r.tally
              (omega (arith, r.few, length-leases others w.sessions, small)) s.backend
              (leases others (erase_session id w.sessions)) (fall others);
        active =
            let e =
              sub64-eq w.active_sessions 1 (omega (arith, r.active, shorter))
                (omega (arith, r.active, r.few, small)) in
            omega (arith, e, r.active, shorter);
        known = AllBelow-erase id w.next_session_id w.sessions r.known;
        few = omega (arith, r.few, shorter);
        given = r.given;
      })

  pub close_session-IsBooked :
      (id : ℕ) (w : Worker S) → IsBooked others n w → IsBooked others n (close_session k id w)
  unfolding close_session
  close_session-IsBooked id w r = elim (Option-cases (find_session id w.sessions)) [
    | inl missing ↦ rw (missing, close_session) r
    | inr (s, at) ↦ rw (at, close_session) (remove_session-IsBooked id s w at r)
  ]

  close_sessions-IsBooked :
      (ids : List ℕ) (w : Worker S)
      → IsBooked others n w
      → IsBooked others n (close_sessions k ids w)
  unfolding close_sessions
  close_sessions-IsBooked [] w r = r
  close_sessions-IsBooked (id ∷ ids) w r =
      close_sessions-IsBooked ids (close_session k id w) (close_session-IsBooked id w r)

  sweep_sessions-IsBooked :
      (limit idle : ℕ) (w : Worker S)
      → IsBooked others n w
      → IsBooked others n (sweep_sessions k limit idle w)
  unfolding sweep_sessions
  sweep_sessions-IsBooked limit idle w r =
      let now : ℕ = k.now w.world.kernel in
      close_sessions-IsBooked (expired_ids k now limit idle w.sessions)
        (record w { world = charge_timeouts k now limit w.sessions w.world })
        (record {
          tally =
              charge_timeouts-Tally k now limit w.sessions w.world (leases others w.sessions)
                r.tally;
          active = r.active;
          known = r.known;
          few = r.few;
          given = r.given;
        })

  close_ended-IsBooked : (w : Worker S) → IsBooked others n w → IsBooked others n (close_ended k w)
  unfolding close_ended
  close_ended-IsBooked w r = close_sessions-IsBooked (closing_ids k w.sessions) w r

-- A client with what its connect and its registration find, the end of a batch, a sweep.
pub data Step : Type 0 where
  creates : ℕ → AcceptedClient → ConnectReply → Bool × Bool → Step
  ends : Step
  sweeps : ℕ → ℕ → Step

module _ {S : Type 0} (k : Kernel S) where
  unfoldable pub step : Step → Worker S → Worker S
  unfolding create_session close_ended sweep_sessions
  step (creates size client reply registered) w = create_session k size client reply registered w
  step ends w = close_ended k w
  step (sweeps limit idle) w = sweep_sessions k limit idle w

  unfoldable pub run_steps : List Step → Worker S → Worker S
  unfolding step
  run_steps [] w = w
  run_steps (s ∷ ss) w = run_steps ss (step s w)

module _ {S : Type 0} {others : List Lease} (k : Kernel S) where
  pub weaken : (n : ℕ) (w : Worker S) → IsBooked others n w → IsBooked others (suc n) w
  weaken n w r = record {
    tally = r.tally;
    active = r.active;
    known = r.known;
    few = omega (arith, r.few);
    given = omega (arith, r.given);
  }

  step-IsBooked :
      (n : ℕ) (s : Step) (w : Worker S)
      → suc n < 1_000_000_000_000
      → IsBooked others n w
      → IsBooked others (suc n) (step k s w)
  unfolding step
  step-IsBooked n (creates size client reply registered) w small r =
      create_session-IsBooked k n small size client registered reply w r
  step-IsBooked n ends w small r = weaken n _ (close_ended-IsBooked k n (omega (arith, small)) w r)
  step-IsBooked n (sweeps limit idle) w small r =
      weaken n _ (sweep_sessions-IsBooked k n (omega (arith, small)) limit idle w r)

  run_steps-IsBooked :
      (ss : List Step) (n m : ℕ) (w : Worker S)
      → n + length ss ≡ m
      → m < 1_000_000_000_000
      → IsBooked others n w
      → IsBooked others m (run_steps k ss w)
  unfolding run_steps
  run_steps-IsBooked [] n m w e small r = let same : n ≡ m = omega (arith, e) in rw same at r
  run_steps-IsBooked (s ∷ ss) n m w e small r =
      run_steps-IsBooked ss (suc n) m (step k s w) (omega (arith, e)) small
        (step-IsBooked n s w (omega (arith, e, small)) r)

-- For a worker without sessions, whose next id is 1, and a pool whose backends have no active
-- connection: after any sequence of fewer than 10 ^ 12 session creations (refused, failed,
-- unregistered or published), closings of the ended sessions and sweeps, its count is the number
-- of its sessions, and each backend's active count is the number of its sessions that hold that
-- backend.
pub run_steps-count :
    {S : Type 0} (k : Kernel S) (others : List Lease) (ss : List Step) (w : Worker S)
    → length ss + length others < 1_000_000_000_000
    → w.sessions ≡ []
    → w.active_sessions ≡ 0
    → w.next_session_id ≡ 1
    → Tally w.world.pool others
    → ((run_steps k ss w).active_sessions ≡ length (run_steps k ss w).sessions)
      × Tally (run_steps k ss w).world.pool (leases others (run_steps k ss w).sessions)
run_steps-count k others ss w small empty none_active first tally =
    let n : ℕ = length others in
    let r = run_steps-IsBooked k ss n (n + length ss) w refl (omega (arith, small)) (record {
      tally = rw empty tally;
      active = rw empty none_active;
      known = rw empty tt;
      few = rw empty (omega arith);
      given = omega (arith, first);
    }) in
    (r.active, r.tally)
