-- ===== src/Cluster/Ready.antt =====
-- What each worker of src/main.cpp keeps, whatever the others do.
use flux_gate.Base.{
  ℕ, zero, suc, ◌+◌, ◌≤◌, ◌≡◌, refl, List, [], ◌∷◌, some, length, get_elem?, set, arith,
}
use flux_gate.Io.{Kernel}
use flux_gate.Cluster.Leases.{all_leases, all_queued}
use flux_gate.Worker.Books.{AllBelow}
use flux_gate.Worker.Reactor.Served.{occurs, holds, AllValid}
use flux_gate.Worker.Reactor.Turns.{length-enqueue}
use flux_gate.Worker.Reactor.Limit.{length-turn}
use flux_gate.Worker.Reactor.{Setup, Reactor, Action, posts, turns, stops, act, stop}

-- After `t` steps, with `q` clients that wait for all workers.
pub record IsReady {S : Type 0} (t q : ℕ) (r : Reactor S) : Type 0 where
  pub active : r.worker.active_sessions ≡ length r.worker.sessions
  pub known : AllBelow r.worker.next_session_id r.worker.sessions
  pub given : r.worker.next_session_id + q ≤ suc t
  pub valid : AllValid r.worker.sessions
  pub kept :
      (f : ℕ) → holds f r.worker.sessions + occurs f r.worker.closed ≡ occurs f r.worker.taken

abbrev pub AllReady : {S : Type 0} → ℕ → ℕ → List (Reactor S) → Type 0
AllReady t q [] = Unit {0}
AllReady t q (r ∷ rs) = IsReady t q r × AllReady t q rs

module _ {S : Type 0} where
  pub AllReady-at :
      (t q j : ℕ) (rs : List (Reactor S)) (r : Reactor S)
      → get_elem? rs j ≡ some r
      → AllReady t q rs
      → IsReady t q r
  AllReady-at t q j [] r at h = cc
  AllReady-at t q zero (p ∷ rs) r at h = let e : p ≡ r = cc at in rw⁻¹ e h.0
  AllReady-at t q (suc j) (p ∷ rs) r at h = AllReady-at t q j rs r at h.1

  IsReady-later : (t q q' : ℕ) (r : Reactor S) → q' ≤ suc q → IsReady t q r → IsReady (suc t) q' r
  IsReady-later t q q' r le h = record {
    active = h.active;
    known = h.known;
    given = omega (arith, h.given, le);
    valid = h.valid;
    kept = h.kept;
  }

  pub AllReady-later :
      (t q q' : ℕ) (rs : List (Reactor S)) → q' ≤ suc q → AllReady t q rs → AllReady (suc t) q' rs
  AllReady-later t q q' [] le h = tt
  AllReady-later t q q' (r ∷ rs) le h =
      (IsReady-later t q q' r le h.0, AllReady-later t q q' rs le h.1)

  pub AllReady-set :
      (t q j : ℕ) (rs : List (Reactor S)) (r : Reactor S)
      → IsReady t q r
      → AllReady t q rs
      → AllReady t q (set rs j r)
  AllReady-set t q j [] r g h = tt
  AllReady-set t q zero (p ∷ rs) r g h = (g, h.1)
  AllReady-set t q (suc j) (p ∷ rs) r g h = (h.0, AllReady-set t q j rs r g h.1)

-- No action of a worker makes more than one client wait.
pub length-act :
    {S : Type 0} (k : Kernel S) (c : Setup) (a : Action) (r : Reactor S)
    → length (act k c a r).inbox.queue ≤ suc (length r.inbox.queue)
unfolding act stop
length-act k c (posts client wake) r = length-enqueue r.inbox client wake
length-act k c (turns answers reply) r = omega (arith, length-turn k c answers reply r)
length-act k c stops r = omega arith

-- A worker that has just been made.
pub record IsNew {S : Type 0} (r : Reactor S) : Type 0 where
  pub no_sessions : r.worker.sessions ≡ []
  pub none_active : r.worker.active_sessions ≡ 0
  pub first_id : r.worker.next_session_id ≡ 1
  pub none_taken : r.worker.taken ≡ []
  pub none_closed : r.worker.closed ≡ []
  pub no_clients : r.inbox.queue ≡ []

abbrev pub AllNew : {S : Type 0} → List (Reactor S) → Type 0
AllNew [] = Unit {0}
AllNew (r ∷ rs) = IsNew r × AllNew rs

-- Each worker's count is that of its sessions, and each descriptor that it has taken is held by a
-- session or closed.
abbrev pub AllCounted : {S : Type 0} → List (Reactor S) → Type 0
AllCounted [] = Unit {0}
AllCounted (r ∷ rs) =
    ((r.worker.active_sessions ≡ length r.worker.sessions)
      × ((f : ℕ) → holds f r.worker.sessions + occurs f r.worker.closed ≡ occurs f r.worker.taken))
    × AllCounted rs

module _ {S : Type 0} where
  IsNew-IsReady : (r : Reactor S) → IsNew r → IsReady 0 0 r
  IsNew-IsReady r h = record {
    active = rw h.no_sessions h.none_active;
    known = rw h.no_sessions tt;
    given = omega (arith, h.first_id);
    valid = rw h.no_sessions tt;
    kept = λ f. rw (h.no_sessions, h.none_closed, h.none_taken) (omega arith);
  }

  pub AllNew-AllReady : (rs : List (Reactor S)) → AllNew rs → AllReady 0 0 rs
  AllNew-AllReady [] h = tt
  AllNew-AllReady (r ∷ rs) h = (IsNew-IsReady r h.0, AllNew-AllReady rs h.1)

  pub AllNew-all_leases : (rs : List (Reactor S)) → AllNew rs → all_leases rs ≡ []
  AllNew-all_leases [] h = refl
  AllNew-all_leases (r ∷ rs) h = rw h.0.no_sessions (AllNew-all_leases rs h.1)

  pub AllNew-all_queued : (rs : List (Reactor S)) → AllNew rs → all_queued rs ≡ 0
  AllNew-all_queued [] h = refl
  AllNew-all_queued (r ∷ rs) h = rw h.0.no_clients (omega (arith, AllNew-all_queued rs h.1))

  pub AllReady-AllCounted : (t q : ℕ) (rs : List (Reactor S)) → AllReady t q rs → AllCounted rs
  AllReady-AllCounted t q [] h = tt
  AllReady-AllCounted t q (r ∷ rs) h = ((h.0.active, h.0.kept), AllReady-AllCounted t q rs h.1)
