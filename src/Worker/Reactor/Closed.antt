-- ===== src/Worker/Reactor/Closed.antt =====
-- What the closing of sessions (src/Worker.cpp) keeps.
use flux_gate.Base.{
  ℕ, ◌+◌, ◌<◌, ◌≡◌, refl, sym, inl, inr, List, [], ◌∷◌, some, ◌==◌, arith, Bool-cases, Option-cases,
}
use flux_gate.Pool.{Lease}
use flux_gate.Io.{Kernel}
use flux_gate.Session.State.{Session}
use flux_gate.Worker.Sessions.{
  Worker, find_session, erase_session, destroy_session, remove_session, close_session,
  close_sessions, expired_ids, sweep_sessions,
}
use flux_gate.Worker.Books.{leases}
use flux_gate.Worker.Runs.{close_session-IsBooked, charge_timeouts-Tally}
use flux_gate.Worker.Reactor.Served.{occurs, owns, holds, AllValid, found_id, IsServed}

module _ (id : ℕ) where
  erase_holds :
      (f : ℕ) (ss : List Session) (s : Session)
      → find_session id ss ≡ some s
      → owns f s + holds f (erase_session id ss) ≡ holds f ss
  erase_holds f [] s at = cc
  erase_holds f (t ∷ ts) s at = elim (Bool-cases (t.id == id)) [
    | inl same ↦ let e : t ≡ s = cc (rw same at at) in rw (same, sym e) refl
    | inr other ↦ rw other (omega (arith, erase_holds f ts s (rw other at at)))
  ]

  AllValid-erase : (ss : List Session) → AllValid ss → AllValid (erase_session id ss)
  AllValid-erase [] h = tt
  AllValid-erase (s ∷ ss) h = elim (Bool-cases (s.id == id)) [
    | inl same ↦ rw same h.1
    | inr other ↦ rw other (h.0, AllValid-erase ss h.1)
  ]

  -- No descriptor is lost when a session of this id is closed.
  abbrev Conserves : {S : Type 0} → Worker S → Type 0
  Conserves w =
      AllValid w.sessions × ((f : ℕ) → holds f w.sessions + occurs f w.closed ≡ occurs f w.taken)

  remove_session-Conserves :
      {S : Type 0} (k : Kernel S) (s : Session) (w : Worker S)
      → find_session id w.sessions ≡ some s
      → s.id ≡ id
      → Conserves w
      → Conserves (remove_session k s w)
  unfolding remove_session destroy_session
  remove_session-Conserves k s w at same h =
      rw same
        (AllValid-erase w.sessions h.0, λ f. omega (arith, h.1 f, erase_holds f w.sessions s at))

module _ {S : Type 0} (k : Kernel S) where
  close_session-Conserves :
      (id : ℕ) (w : Worker S) → Conserves id w → Conserves id (close_session k id w)
  unfolding close_session
  close_session-Conserves id w h = elim (Option-cases (find_session id w.sessions)) [
    | inl missing ↦ rw (missing, close_session) h
    | inr (s, at) ↦
        rw (at, close_session)
          (remove_session-Conserves id k s w at (found_id id w.sessions s at) h)
  ]

module _ {S : Type 0} {others : List Lease} (k : Kernel S) (n : ℕ)
    (small : n < 1_000_000_000_000) where
  close_session-IsServed :
      (id : ℕ) (w : Worker S) → IsServed others n w → IsServed others n (close_session k id w)
  close_session-IsServed id w r =
      let (valid, kept) = close_session-Conserves k id w (r.valid, r.kept) in
      record { booked = close_session-IsBooked k n small id w r.booked; valid = valid; kept = kept }

  pub close_sessions-IsServed :
      (ids : List ℕ) (w : Worker S)
      → IsServed others n w
      → IsServed others n (close_sessions k ids w)
  unfolding close_sessions
  close_sessions-IsServed [] w r = r
  close_sessions-IsServed (id ∷ ids) w r =
      close_sessions-IsServed ids _ (close_session-IsServed id w r)

  pub sweep_sessions-IsServed :
      (limit idle : ℕ) (w : Worker S)
      → IsServed others n w
      → IsServed others n (sweep_sessions k limit idle w)
  unfolding sweep_sessions
  sweep_sessions-IsServed limit idle w r =
      let now : ℕ = k.now w.world.kernel in
      close_sessions-IsServed (expired_ids k now limit idle w.sessions) _ (record {
        booked = record {
          tally =
              charge_timeouts-Tally k now limit w.sessions w.world (leases others w.sessions)
                r.booked.tally;
          active = r.booked.active;
          known = r.booked.known;
          few = r.booked.few;
          given = r.booked.given;
        };
        valid = r.valid;
        kept = r.kept;
      })
