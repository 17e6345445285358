-- ===== src/Worker/Events.antt =====
-- What an event of a session (`ProxySession::handleEvent`, src/ProxySession.cpp) leaves to its worker.
use flux_gate.Base.{
  ℕ, ◌≡◌, sym, inl, inr, Bool, true, false, not, ◌&&◌, ◌||◌, List, [], ◌∷◌, Option, none, some,
  ◌==◌, ok, err, ◌>>=◌, Bool-cases,
}
use mathlib.Core.Path.{subst}
use flux_gate.Buffer.{is_empty}
use flux_gate.Buffer.Content.{IsValid}
use flux_gate.Pool.{Pool, Lease}
use flux_gate.Pool.Leases.{Tally}
use flux_gate.Io.{Kernel, IsKernel}
use flux_gate.Session.Loops.{IoResult, progress, would_block, closed, error, Transfer}
use flux_gate.Session.Loops.Reading.{read_into-ReadFrom}
use flux_gate.Session.Loops.Writing.{write_from-WroteTo}
use flux_gate.Session.State.{Events, Session, Live, connect_result, touch}
use flux_gate.Session.Stages.{
  Stage, after_connect, client_transfer, upstream_transfer, with_client_buffer,
  with_upstream_buffer, after_client_read, after_upstream_read, after_write, wants_read,
  connect_stage, error_stage, client_read, client_write, upstream_read, upstream_write,
  transfer_stage,
}
use flux_gate.Session.Handler.{
  is_completed, shut_upstream, shut_client, update_half_close, finish_stage, handle_stages,
  returned, handle_event, run_events,
}
use flux_gate.Worker.Books.{Tally-success, Tally-failure}

-- What the maps of a worker know of a session: its id, its client's and its upstream descriptor.
abbrev pub names : Session → ℕ × ℕ × ℕ
names s = (s.id, s.client_fd, s.upstream_fd)

-- The backends' counts agree with the leases `ls`, both buffers are valid, and the session has the
-- id, the descriptors and the lease that it was made with.
abbrev pub IsKept : {S : Type 0} → List Lease → ℕ × ℕ × ℕ → Lease → Live S → Type 0
IsKept ls own lease l =
    Tally l.world.pool ls
    × IsValid l.session.client_to_upstream
    × IsValid l.session.upstream_to_client
    × (names l.session ≡ own)
    × (l.session.backend ≡ lease)

module _ {S : Type 0} (k : Kernel S) (law : IsKernel k) (ls : List Lease) (own : ℕ × ℕ × ℕ)
    (lease : Lease) where
  abbrev Kept : Live S → Type 0
  Kept l = IsKept ls own lease l

  abbrev StageKept : Stage S → Type 0
  StageKept (err r) = Kept r.1
  StageKept (ok l) = Kept l

  StageKept-bind :
      (s : Stage S) (f : Live S → Stage S)
      → StageKept s
      → ((l : Live S) → Kept l → StageKept (f l))
      → StageKept (s >>= f)
  StageKept-bind (err r) f h g = h
  StageKept-bind (ok l) f h g = g l h

  connect_result-Kept : (l : Live S) (o : Option ℕ × S) → Kept l → Kept (connect_result k l o).1
  unfolding connect_result touch
  connect_result-Kept l (none, s) h =
      (Tally-failure l.world.pool ls h.0 l.session.backend, h.1, h.2, h.3, h.4)
  connect_result-Kept l (some e, s) h = elim (Bool-cases (not (e == 0))) [
    | inl bad ↦ rw bad (Tally-failure l.world.pool ls h.0 l.session.backend, h.1, h.2, h.3, h.4)
    | inr good ↦ rw good (Tally-success l.world.pool ls h.0 l.session.backend, h.1, h.2, h.3, h.4)
  ]

  after_connect-Kept : (r : Bool × Live S) → Kept r.1 → StageKept (after_connect r)
  unfolding after_connect
  after_connect-Kept (true, l) h = h
  after_connect-Kept (false, l) h = h

  connect_stage-Kept :
      (fd : ℕ) (ev : Events) (l : Live S) → Kept l → StageKept (connect_stage k fd ev l)
  unfolding connect_stage
  connect_stage-Kept fd ev l h =
      elim (Bool-cases (fd == l.session.upstream_fd && l.session.upstream_connecting)) [
        | inr other ↦ rw other h
        | inl pending ↦
            rw pending (elim (Bool-cases (not (ev.writable || ev.failing || ev.hangup))) [
              | inl early ↦ rw early h
              | inr ready ↦ rw ready (
                  after_connect-Kept _
                    (connect_result-Kept l (k.so_error l.world.kernel l.session.upstream_fd) h))
            ])
      ]

  error_stage-Kept :
      (fd : ℕ) (ev : Events) (l : Live S) → Kept l → StageKept (error_stage k fd ev l)
  unfolding error_stage
  error_stage-Kept fd ev l h = elim (Bool-cases ev.failing) [
    | inr fine ↦ rw fine h
    | inl bad ↦ rw bad h
  ]

  Tally-same : (p q : Pool) → p ≡ q → Tally q ls → Tally p ls
  Tally-same p q e h = subst (λ r. Tally r ls) (sym e) h

  after_client_read-Kept :
      (ev : Events) (l : Live S) (r : IoResult × Transfer S)
      → Kept (with_client_buffer l r.1)
      → StageKept (after_client_read ev l r)
  unfolding after_client_read
  after_client_read-Kept ev l (error, t) h = h
  after_client_read-Kept ev l (progress, t) h = h
  after_client_read-Kept ev l (would_block, t) h = h
  after_client_read-Kept ev l (closed, t) h = h

  after_upstream_read-Kept :
      (ev : Events) (l : Live S) (r : IoResult × Transfer S)
      → Kept (with_upstream_buffer l r.1)
      → StageKept (after_upstream_read ev l r)
  unfolding after_upstream_read
  after_upstream_read-Kept ev l (error, t) h = h
  after_upstream_read-Kept ev l (progress, t) h = h
  after_upstream_read-Kept ev l (would_block, t) h = h
  after_upstream_read-Kept ev l (closed, t) h = h

  after_write-Kept : (r : IoResult) (m : Live S) → Kept m → StageKept (after_write r m)
  unfolding after_write
  after_write-Kept error m h = h
  after_write-Kept closed m h = h
  after_write-Kept progress m h = h
  after_write-Kept would_block m h = h

  client_read-Kept : (ev : Events) (l : Live S) → Kept l → StageKept (client_read k ev l)
  unfolding client_read
  client_read-Kept ev l h = elim (Bool-cases (not l.session.client_read_closed && wants_read ev)) [
    | inr idle ↦ rw idle h
    | inl go ↦
        let m = read_into-ReadFrom k law l.session.client_fd true (client_transfer l) h.1 in
        rw go (
          after_client_read-Kept ev l _
            (Tally-same _ _ m.1.same_pool h.0, m.1.valid, h.2, h.3, h.4))
  ]

  upstream_read-Kept : (ev : Events) (l : Live S) → Kept l → StageKept (upstream_read k ev l)
  unfolding upstream_read
  upstream_read-Kept ev l h =
      elim (Bool-cases (not l.session.upstream_read_closed && wants_read ev)) [
        | inr idle ↦ rw idle h
        | inl go ↦
            let m =
              read_into-ReadFrom k law l.session.upstream_fd false (upstream_transfer l) h.2 in
            rw go (
              after_upstream_read-Kept ev l _
                (Tally-same _ _ m.1.same_pool h.0, h.1, m.1.valid, h.3, h.4))
      ]

  client_write-Kept : (ev : Events) (l : Live S) → Kept l → StageKept (client_write k ev l)
  unfolding client_write
  client_write-Kept ev l h =
      elim (Bool-cases (ev.writable && not (is_empty l.session.upstream_to_client))) [
        | inr idle ↦ rw idle h
        | inl go ↦
            let w = write_from-WroteTo k law l.session.client_fd (upstream_transfer l) h.2 in
            rw go
              (after_write-Kept _ _ (Tally-same _ _ w.1.same_pool h.0, h.1, w.1.valid, h.3, h.4))
      ]

  upstream_write-Kept : (ev : Events) (l : Live S) → Kept l → StageKept (upstream_write k ev l)
  unfolding upstream_write
  upstream_write-Kept ev l h =
      elim (Bool-cases (ev.writable && not (is_empty l.session.client_to_upstream))) [
        | inr idle ↦ rw idle h
        | inl go ↦
            let w = write_from-WroteTo k law l.session.upstream_fd (client_transfer l) h.1 in
            rw go
              (after_write-Kept _ _ (Tally-same _ _ w.1.same_pool h.0, w.1.valid, h.2, h.3, h.4))
      ]

  transfer_stage-Kept :
      (fd : ℕ) (ev : Events) (l : Live S) → Kept l → StageKept (transfer_stage k fd ev l)
  unfolding transfer_stage
  transfer_stage-Kept fd ev l h = elim (Bool-cases (fd == l.session.client_fd)) [
    | inl client ↦ rw client (
        StageKept-bind (client_read k ev l) (client_write k ev) (client_read-Kept ev l h)
          (client_write-Kept ev))
    | inr other ↦ rw other (elim (Bool-cases (fd == l.session.upstream_fd)) [
      | inl upstream ↦ rw upstream (
          StageKept-bind (upstream_read k ev l) (upstream_write k ev) (upstream_read-Kept ev l h)
            (upstream_write-Kept ev))
      | inr unknown ↦ rw unknown h
    ])
  ]

  shut_upstream-Kept : (l : Live S) → Kept l → Kept (shut_upstream k l)
  unfolding shut_upstream
  shut_upstream-Kept l h =
      elim (Bool-cases (
        l.session.client_read_closed
        && is_empty l.session.client_to_upstream
        && not l.session.upstream_write_shutdown
        && not l.session.upstream_connecting)) [ inr idle ↦ rw idle h | inl go ↦ rw go h ]

  shut_client-Kept : (l : Live S) → Kept l → Kept (shut_client k l)
  unfolding shut_client
  shut_client-Kept l h =
      elim (Bool-cases (
        l.session.upstream_read_closed
        && is_empty l.session.upstream_to_client
        && not l.session.client_write_shutdown)) [ inr idle ↦ rw idle h | inl go ↦ rw go h ]

  finish_stage-Kept : (l : Live S) → Kept l → StageKept (finish_stage k l)
  unfolding finish_stage update_half_close
  finish_stage-Kept l h =
      let h' = shut_client-Kept _ (shut_upstream-Kept l h) in
      elim (Bool-cases (is_completed (update_half_close k l).session)) [
        | inl over ↦ rw over h'
        | inr more ↦ rw more h'
      ]

  handle_stages-Kept :
      (fd : ℕ) (ev : Events) (l : Live S) → Kept l → StageKept (handle_stages k fd ev l)
  unfolding handle_stages
  handle_stages-Kept fd ev l h =
      StageKept-bind (connect_stage k fd ev l) _ (connect_stage-Kept fd ev l h) λ m h1.
        StageKept-bind (error_stage k fd ev m) _ (error_stage-Kept fd ev m h1) λ n h2.
          StageKept-bind (transfer_stage k fd ev n) (finish_stage k)
            (transfer_stage-Kept fd ev n h2) finish_stage-Kept

  returned-Kept : (s : Stage S) → StageKept s → Kept (returned s).1
  returned-Kept (err r) h = h
  returned-Kept (ok l) h = h

  pub handle_event-Kept :
      (fd : ℕ) (ev : Events) (l : Live S)
      → IsKept ls own lease l
      → IsKept ls own lease (handle_event k fd ev l).1
  unfolding handle_event
  handle_event-Kept fd ev l h = elim (Bool-cases l.session.closing) [
    | inl over ↦ simp over h
    | inr live ↦ simp live (returned-Kept _ (handle_stages-Kept fd ev l h))
  ]

-- On a lawful kernel, for a session with valid buffers and a pool whose active counts are the
-- numbers of a list of leases that hold each backend: after any events the counts are those of
-- the same leases, the buffers are valid, and the session has the same id, descriptors and lease.
pub run_events-IsKept :
    {S : Type 0} (k : Kernel S) (law : IsKernel k) (ls : List Lease) (own : ℕ × ℕ × ℕ)
    (lease : Lease) (es : List (ℕ × Events)) (l : Live S)
    → IsKept ls own lease l
    → IsKept ls own lease (run_events k es l)
unfolding run_events
run_events-IsKept k law ls own lease [] l h = h
run_events-IsKept k law ls own lease ((fd, ev) ∷ es) l h =
    run_events-IsKept k law ls own lease es _ (handle_event-Kept k law ls own lease fd ev l h)
