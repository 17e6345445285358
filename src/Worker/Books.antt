-- ===== src/Worker/Books.antt =====
-- What the operations on sessions (src/Worker.cpp) keep.
use flux_gate.Base.{
  ℕ, suc, ◌+◌, ◌<◌, ◌≤◌, ◌≡◌, refl, sym, ap, ◌∙◌, inl, inr, Bool, true, false, List, [], ◌∷◌, none,
  some, length, ◌==◌, ==_iff, arith, add64, add64-eq, Bool-cases,
}
use flux_gate.Backend.{Backend, record_connect_success, record_connect_failure}
use flux_gate.Pool.Least.{selected, acquire-selected, lease-new_lease}
use flux_gate.Pool.{Pool, Lease, acquire, update_backend}
use flux_gate.Pool.System.{points, count, update_at}
use flux_gate.Pool.Leases.{Tally, Tally-reset, Tally-new_lease}
use flux_gate.Io.{Kernel}
use flux_gate.Session.State.{Session, new_session, record_success, record_failure}
use flux_gate.Worker.Queue.{AcceptedClient}
use flux_gate.Worker.Interest.{Interest}
use flux_gate.Worker.Sessions.{
  Worker, ConnectReply, find_session, erase_session, destroy_session, publish_registered,
  publish_session, connect_session, lease_session, create_session,
}

-- The leases that the sessions hold, after those that stand elsewhere: the other workers'.
abbrev pub leases : List Lease → List Session → List Lease
leases others [] = others
leases others (s ∷ ss) = s.backend ∷ leases others ss

abbrev pub AllBelow : ℕ → List Session → Type 0
AllBelow n [] = Unit {0}
AllBelow n (s ∷ ss) = (s.id < n) × AllBelow n ss

-- The backends' counts are those of the sessions' leases and the others, the worker's count is that
-- of its sessions, and their ids have been given out; `n` bounds the leases and the ids.
pub record IsBooked {S : Type 0} (others : List Lease) (n : ℕ) (w : Worker S) : Type 0 where
  pub tally : Tally w.world.pool (leases others w.sessions)
  pub active : w.active_sessions ≡ length w.sessions
  pub known : AllBelow w.next_session_id w.sessions
  pub few : length w.sessions + length others ≤ n
  pub given : w.next_session_id ≤ suc n

pub length-leases :
    (others : List Lease) (ss : List Session)
    → length (leases others ss) ≡ length ss + length others
length-leases others [] = omega arith
length-leases others (s ∷ ss) = omega (arith, length-leases others ss)

module _ (id : ℕ) where
  pub erase_unknown : (ss : List Session) → AllBelow id ss → erase_session id ss ≡ ss
  erase_unknown [] h = refl
  erase_unknown (s ∷ ss) h = elim (Bool-cases (s.id == id)) [
    | inl same ↦ absurd (omega (arith, (==_iff s.id id).0 same, h.0))
    | inr other ↦ rw other (ap (λ t. s ∷ t) (erase_unknown ss h.1))
  ]

  -- What a session that is found leaves.
  pub erase_found :
      (ss : List Session) (s : Session)
      → find_session id ss ≡ some s
      → (s.id ≡ id)
        × (suc (length (erase_session id ss)) ≡ length ss)
        × ((others : List Lease) (i : ℕ)
            → count i (leases others (erase_session id ss)) + points i s.backend
              ≡ count i (leases others ss))
  erase_found [] s h = cc
  erase_found (t ∷ ss) s h = elim (Bool-cases (t.id == id)) [
    | inl same ↦
        let e : t ≡ s = cc (rw same at h) in
        rw (same, sym e) ((==_iff t.id id).0 same, refl, λ others i. omega arith)
    | inr other ↦
        let (e, l, c) = erase_found ss s (rw other at h) in
        rw other (e, ap suc l, λ others i. omega (arith, c others i))
  ]

  pub AllBelow-erase :
      (n : ℕ) (ss : List Session) → AllBelow n ss → AllBelow n (erase_session id ss)
  AllBelow-erase n [] h = tt
  AllBelow-erase n (s ∷ ss) h = elim (Bool-cases (s.id == id)) [
    | inl same ↦ rw same h.1
    | inr other ↦ rw other (h.0, AllBelow-erase n ss h.1)
  ]

module _ (p : Pool) (ls : List Lease) (tally : Tally p ls) where
  pub Tally-steady :
      (f : Backend → Backend) (j : ℕ)
      → ((b : Backend) → (f b).active_connections ≡ b.active_connections)
      → Tally (update_backend f j p) ls
  Tally-steady f j steady i b at = elim (update_at f j p i b at) [
    | inl (ne, at') ↦ tally i b at'
    | inr (a, e, at', image) ↦
        ap (λ (t : Backend). t.active_connections) image ∙ steady a ∙ tally i a at'
  ]

  pub Tally-success : (l : Lease) → Tally (record_success l p) ls
  unfolding record_success record_connect_success
  Tally-success none = tally
  Tally-success (some j) = Tally-steady record_connect_success j (λ b. refl)

  pub Tally-failure : (l : Lease) → Tally (record_failure l p) ls
  unfolding record_failure record_connect_failure
  Tally-failure none = tally
  Tally-failure (some j) = Tally-steady record_connect_failure j (λ b. refl)

  pub Tally-acquire : length ls < 1_000_000_000_000 → Tally (acquire p).0 ((acquire p).1 ∷ ls)
  Tally-acquire few =
      let q : Pool = record p { tie_breaker = add64 p.tie_breaker 1 } in
      let l = selected p in
      rw (acquire-selected p, lease-new_lease l q) (Tally-new_lease q ls tally few l)

AllBelow-le : (m n : ℕ) (ss : List Session) → m ≤ n → AllBelow m ss → AllBelow n ss
AllBelow-le m n [] le h = tt
AllBelow-le m n (s ∷ ss) le h = (omega (arith, h.0, le), AllBelow-le m n ss le h.1)

-- A worker with a lease at hand that no session of its maps holds.
record IsLeasing {S : Type 0} (others : List Lease) (n : ℕ) (w : Worker S) (l : Lease)
    : Type 0 where
  tally : Tally w.world.pool (l ∷ leases others w.sessions)
  active : w.active_sessions ≡ length w.sessions
  known : AllBelow w.next_session_id w.sessions
  few : length w.sessions + length others ≤ n
  given : w.next_session_id ≤ suc n

few_leases :
    (others : List Lease) (n : ℕ) (l : Lease) (ss : List Session)
    → suc n < 1_000_000_000_000
    → length ss + length others ≤ n
    → length (l ∷ leases others ss) < 1_000_000_000_000
few_leases others n l ss small h = omega (arith, h, length-leases others ss, small)

module _ {S : Type 0} {others : List Lease} (k : Kernel S) (n : ℕ)
    (small : suc n < 1_000_000_000_000) where
  publish_registered-IsBooked :
      (registered : Bool × Interest) (s : Session) (w : Worker S)
      → Tally w.world.pool (s.backend ∷ leases others w.sessions)
      → w.active_sessions ≡ length w.sessions
      → length w.sessions + length others ≤ n
      → AllBelow s.id w.sessions
      → w.next_session_id ≡ suc s.id
      → s.id ≤ suc n
      → IsBooked others (suc n) (publish_registered k registered s w)
  unfolding publish_registered destroy_session
  publish_registered-IsBooked (false, m) s w tally active few fresh next given = record {
    tally =
        Tally-reset w.world.pool (s.backend ∷ leases others w.sessions) tally
          (few_leases others n s.backend w.sessions small few) s.backend (leases others w.sessions)
          (λ i. omega arith);
    active = active;
    known = AllBelow-le s.id w.next_session_id w.sessions (omega (arith, next)) fresh;
    few = omega (arith, few);
    given = omega (arith, next, given);
  }
  publish_registered-IsBooked (true, m) s w tally active few fresh next given =
      rw (erase_unknown s.id w.sessions fresh) (record {
        tally = tally;
        active =
            let e = add64-eq w.active_sessions 1 (omega (arith, active, few, small)) in
            omega (arith, e, active);
        known = (
          omega (arith, next),
          AllBelow-le s.id w.next_session_id w.sessions (omega (arith, next)) fresh,
        );
        few = omega (arith, few);
        given = omega (arith, next, given);
      })

  publish_session-IsBooked :
      (registered : Bool × Bool) (s : Session) (w : Worker S)
      → Tally w.world.pool (s.backend ∷ leases others w.sessions)
      → w.active_sessions ≡ length w.sessions
      → length w.sessions + length others ≤ n
      → AllBelow s.id w.sessions
      → w.next_session_id ≡ suc s.id
      → s.id ≤ suc n
      → IsBooked others (suc n) (publish_session k registered s w)
  unfolding publish_session
  publish_session-IsBooked registered s w = publish_registered-IsBooked _ s w

  retaken :
      (taken : List ℕ) (w : Worker S)
      → IsBooked others n w
      → IsBooked others n (record w { taken = taken })
  retaken taken w r = record {
    tally = r.tally;
    active = r.active;
    known = r.known;
    few = r.few;
    given = r.given;
  }

  module _ (size : ℕ) (client : AcceptedClient) (registered : Bool × Bool) where
    connect_session-IsBooked :
        (i : ℕ) (reply : ConnectReply) (w : Worker S)
        → IsLeasing others n w (some i)
        → IsBooked others (suc n) (connect_session k size client i reply registered w)
    unfolding connect_session new_session
    connect_session-IsBooked i none w r = record {
      tally =
          Tally-reset (record_failure (some i) w.world.pool) (some i ∷ leases others w.sessions)
            (Tally-failure w.world.pool (some i ∷ leases others w.sessions) r.tally (some i))
            (few_leases others n (some i) w.sessions small r.few) (some i)
            (leases others w.sessions) (λ j. omega arith);
      active = r.active;
      known = r.known;
      few = omega (arith, r.few);
      given = omega (arith, r.given);
    }
    connect_session-IsBooked i (some (fd, true)) w r =
        publish_session-IsBooked registered _ _ r.tally r.active r.few r.known
          (add64-eq w.next_session_id 1 (omega (arith, r.given, small)) ∙ omega arith) r.given
    connect_session-IsBooked i (some (fd, false)) w r =
        publish_session-IsBooked registered _ _
          (Tally-success w.world.pool (some i ∷ leases others w.sessions) r.tally (some i)) r.active
          r.few r.known (add64-eq w.next_session_id 1 (omega (arith, r.given, small)) ∙ omega arith)
          r.given

    lease_session-IsBooked :
        (reply : ConnectReply) (w : Worker S) (o : Pool × Lease)
        → IsBooked others n w
        → Tally o.0 (o.1 ∷ leases others w.sessions)
        → IsBooked others (suc n) (lease_session k size client reply registered w o)
    unfolding lease_session
    lease_session-IsBooked reply w (p, none) r tally = record {
      tally = λ i b at. tally i b at ∙ omega arith;
      active = r.active;
      known = r.known;
      few = omega (arith, r.few);
      given = omega (arith, r.given);
    }
    lease_session-IsBooked reply w (p, some i) r tally =
        connect_session-IsBooked i reply _ (record {
          tally = tally;
          active = r.active;
          known = r.known;
          few = r.few;
          given = r.given;
        })

    pub create_session-IsBooked :
        (reply : ConnectReply) (w : Worker S)
        → IsBooked others n w
        → IsBooked others (suc n) (create_session k size client reply registered w)
    unfolding create_session
    create_session-IsBooked reply w r =
        lease_session-IsBooked reply _ (acquire w.world.pool) (retaken _ w r) (
          Tally-acquire w.world.pool (leases others w.sessions) r.tally
            (omega (arith, r.few, length-leases others w.sessions, small)))
