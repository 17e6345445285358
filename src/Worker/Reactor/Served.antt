-- ===== src/Worker/Reactor/Served.antt =====
-- What one event of a session leaves of the maps of its worker (src/Worker.cpp).
use flux_gate.Base.{
  ℕ, suc, ◌+◌, ◌<◌, ◌≡◌, refl, sym, ap, ◌∙◌, inl, inr, Bool, true, false, List, [], ◌∷◌, Option,
  none, some, length, ◌==◌, if◌then◌else◌, ==_refl, arith, Bool-cases, Option-cases,
}
use mathlib.Core.Path.{subst}
use flux_gate.Buffer.Content.{IsValid}
use flux_gate.Pool.{Lease}
use flux_gate.Pool.Leases.{Tally}
use flux_gate.Io.{Kernel, IsKernel}
use flux_gate.Session.State.{Events, Session, Live}
use flux_gate.Worker.Queue.{same_fd}
use flux_gate.Worker.Interest.{Interest, update_interests}
use flux_gate.Worker.Sessions.{Worker, find_session}
use flux_gate.Worker.Books.{leases, AllBelow, IsBooked, erase_found}
use flux_gate.Worker.Events.{IsKept, names, handle_event-Kept}
use flux_gate.Worker.Ready.{
  find_fd, replace_session, mark_closing, after_update, settle_session, serve_session, serve_id,
  serve_fd,
}

-- How often a descriptor stands in a list, and how often the sessions hold it.
abbrev pub occurs : ℕ → List ℕ → ℕ
occurs f [] = 0
occurs f (g ∷ gs) = same_fd f g + occurs f gs

abbrev pub owns : ℕ → Session → ℕ
owns f s = same_fd f s.client_fd + same_fd f s.upstream_fd

abbrev pub holds : ℕ → List Session → ℕ
holds f [] = 0
holds f (s ∷ ss) = owns f s + holds f ss

abbrev pub AllValid : List Session → Type 0
AllValid [] = Unit {0}
AllValid (s ∷ ss) = (IsValid s.client_to_upstream × IsValid s.upstream_to_client) × AllValid ss

-- The books are kept, the buffers are valid, and each descriptor that the worker has taken is held
-- by a session or closed, as often as it was taken.
pub record IsServed {S : Type 0} (others : List Lease) (n : ℕ) (w : Worker S) : Type 0 where
  pub booked : IsBooked others n w
  pub valid : AllValid w.sessions
  pub kept : (f : ℕ) → holds f w.sessions + occurs f w.closed ≡ occurs f w.taken

AllValid-find :
    (id : ℕ) (ss : List Session) (s : Session)
    → AllValid ss
    → find_session id ss ≡ some s
    → IsValid s.client_to_upstream × IsValid s.upstream_to_client
AllValid-find id [] s h at = cc
AllValid-find id (t ∷ ts) s h at = elim (Bool-cases (t.id == id)) [
  | inl same ↦ let e : t ≡ s = cc (rw same at at) in rw (sym e) h.0
  | inr other ↦ AllValid-find id ts s h.1 (rw other at at)
]

pub found_id : (id : ℕ) (ss : List Session) (s : Session) → find_session id ss ≡ some s → s.id ≡ id
found_id id ss s at = (erase_found id ss s at).0

record Replaced (t : Session) (ss : List Session) : Type 0 where
  same_leases : (others : List Lease) → leases others (replace_session t ss) ≡ leases others ss
  same_length : length (replace_session t ss) ≡ length ss
  same_bound : (n : ℕ) → AllBelow n ss → AllBelow n (replace_session t ss)
  same_holds : (f : ℕ) → holds f (replace_session t ss) ≡ holds f ss

-- A session in place of one with the same names and lease.
module _ (s t : Session) (same : names t ≡ names s) (lease : t.backend ≡ s.backend) where
  same_owns : (f : ℕ) → owns f t ≡ owns f s
  same_owns f = ap (λ (o : ℕ × ℕ × ℕ). same_fd f o.1 + same_fd f o.2) same

  same_test : (u : Session) → (u.id == t.id) ≡ (u.id == s.id)
  same_test u = ap (λ (o : ℕ × ℕ × ℕ). u.id == o.0) same

  -- At the place of the session itself.
  Replaced-head : (us : List Session) → Replaced t (s ∷ us)
  Replaced-head us =
      let e : (s.id == t.id) ≡ true = same_test s ∙ ==_refl s.id in
      record {
        same_leases = λ others. rw e (ap (λ l. l ∷ leases others us) lease);
        same_length = rw e refl;
        same_bound = λ n h. rw e (subst (λ (o : ℕ × ℕ × ℕ). o.0 < n) (sym same) h.0, h.1);
        same_holds = λ f. rw e (ap (λ n. n + holds f us) (same_owns f));
      }

  replaced : (ss : List Session) → find_session s.id ss ≡ some s → Replaced t ss
  replaced [] at = cc
  replaced (u ∷ us) at = elim (Bool-cases (u.id == s.id)) [
    | inl here ↦
        let e : u ≡ s = cc (rw here at at) in
        subst (λ v. Replaced t (v ∷ us)) (sym e) (Replaced-head us)
    | inr other ↦
        let r = replaced us (rw other at at) in
        let e = same_test u ∙ other in
        record {
          same_leases = λ others. rw e (ap (λ l. u.backend ∷ l) (r.same_leases others));
          same_length = rw e (ap suc r.same_length);
          same_bound = λ n h. rw e (h.0, r.same_bound n h.1);
          same_holds = λ f. rw e (ap (λ n. owns f u + n) (r.same_holds f));
        }
  ]

AllValid-replace :
    (t : Session) (ss : List Session)
    → IsValid t.client_to_upstream × IsValid t.upstream_to_client
    → AllValid ss
    → AllValid (replace_session t ss)
AllValid-replace t [] v h = tt
AllValid-replace t (u ∷ us) v h = elim (Bool-cases (u.id == t.id)) [
  | inl here ↦ rw here (v, h.1)
  | inr other ↦ rw other (h.0, AllValid-replace t us v h.1)
]

module _ {S : Type 0} {others : List Lease} (k : Kernel S) (law : IsKernel k) (n : ℕ) where
  -- The worker with what an event leaves of its session.
  stored-IsServed :
      (s t : Session) (w : Worker S) (l : Live S) (m : Interest)
      → IsServed others n w
      → find_session s.id w.sessions ≡ some s
      → names t ≡ names s
      → t.backend ≡ s.backend
      → IsValid t.client_to_upstream × IsValid t.upstream_to_client
      → Tally l.world.pool (leases others w.sessions)
      → IsServed others n
          (record w { sessions = replace_session t w.sessions; interest = m; world = l.world })
  stored-IsServed s t w l m r at same lease v tally =
      let e = replaced s t same lease w.sessions at in
      record {
        booked = record {
          tally = rw (e.same_leases others) tally;
          active = r.booked.active ∙ sym e.same_length;
          known = e.same_bound w.next_session_id r.booked.known;
          few = omega (arith, r.booked.few, e.same_length);
          given = r.booked.given;
        };
        valid = AllValid-replace t w.sessions v r.valid;
        kept = λ f. omega (arith, e.same_holds f, r.kept f);
      }

  settle_session-IsServed :
      (modified : Bool × Bool) (s : Session) (w : Worker S) (o : Bool × Live S)
      → IsServed others n w
      → find_session s.id w.sessions ≡ some s
      → IsKept (leases others w.sessions) (names s) s.backend o.1
      → IsServed others n (settle_session k modified o w)
  unfolding settle_session after_update mark_closing
  settle_session-IsServed modified s w (false, l) r at h =
      stored-IsServed s _ w l w.interest r at h.3 h.4 (h.1, h.2) h.0
  settle_session-IsServed modified s w (true, l) r at h =
      let u = update_interests modified l.session w.interest in
      elim (Bool-cases u.0) [
        | inl done ↦ rw done (stored-IsServed s _ w l u.1 r at h.3 h.4 (h.1, h.2) h.0)
        | inr bad ↦ rw bad (stored-IsServed s _ w l u.1 r at h.3 h.4 (h.1, h.2) h.0)
      ]

  pub IsServed-if :
      (t : Bool) (x y : Worker S)
      → IsServed others n x
      → IsServed others n y
      → IsServed others n (if t then x else y)
  IsServed-if true x y h g = h
  IsServed-if false x y h g = g

  serve_session-IsServed :
      (fd : ℕ) (ev : Events) (modified : Bool × Bool) (s : Session) (w : Worker S)
      → IsServed others n w
      → find_session s.id w.sessions ≡ some s
      → IsServed others n (serve_session k fd ev modified s w)
  unfolding serve_session
  serve_session-IsServed fd ev modified s w r at =
      let v = AllValid-find s.id w.sessions s r.valid at in
      let kept =
        handle_event-Kept k law (leases others w.sessions) (names s) s.backend fd ev _
          (r.booked.tally, v.0, v.1, refl, refl) in
      IsServed-if s.closing w _ r (settle_session-IsServed modified s w _ r at kept)

  serve_id-IsServed :
      (fd : ℕ) (ev : Events) (modified : Bool × Bool) (o : Option ℕ) (w : Worker S)
      → IsServed others n w
      → IsServed others n (serve_id k fd ev modified o w)
  unfolding serve_id
  serve_id-IsServed fd ev modified none w r = r
  serve_id-IsServed fd ev modified (some id) w r =
      elim (Option-cases (find_session id w.sessions)) [
        | inl missing ↦ rw (missing, serve_id) r
        | inr (s, at) ↦
            let e = found_id id w.sessions s at in
            rw (at, serve_id)
              (serve_session-IsServed fd ev modified s w r
                (subst (λ i. find_session i w.sessions ≡ some s) (sym e) at))
      ]

  pub serve_fd-IsServed :
      (fd : ℕ) (ev : Events) (modified : Bool × Bool) (w : Worker S)
      → IsServed others n w
      → IsServed others n (serve_fd k fd ev modified w)
  unfolding serve_fd
  serve_fd-IsServed fd ev modified w =
      serve_id-IsServed fd ev modified (find_fd fd w.fd_to_session) w
