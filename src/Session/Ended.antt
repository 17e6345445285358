-- ===== src/Session/Ended.antt =====
-- `ProxySession::handleEvent` (src/ProxySession.cpp) after the client's end has been seen.
use flux_gate.Base.{
  ℕ, ◌≡◌, ◌∙◌, inl, inr, Bool, true, false, not, ◌&&◌, ◌||◌, List, [], ◌∷◌, Option, none, some,
  ◌==◌, ok, err, ◌>>=◌, Bool-cases,
}
use flux_gate.Buffer.{is_empty}
use flux_gate.Io.{Kernel, IsKernel, bytes_read}
use flux_gate.Session.Loops.{IoResult, progress, would_block, closed, error, Transfer}
use flux_gate.Session.Loops.Reading.{read_into-ReadFrom}
use flux_gate.Session.Loops.Writing.{write_from-WroteTo}
use flux_gate.Session.State.{Events, Live, connect_result}
use flux_gate.Session.Stages.{
  Stage, after_connect, client_transfer, upstream_transfer, with_upstream_buffer,
  after_upstream_read, after_write, wants_read, connect_stage, error_stage, client_read,
  client_write, upstream_read, upstream_write, transfer_stage,
}
use flux_gate.Session.Handler.{
  is_completed, shut_upstream, shut_client, update_half_close, finish_stage, handle_stages,
  returned, handle_event, run_events,
}
use flux_gate.Session.Relay.{Shape, Relay, StageRelay}
use flux_gate.Session.Relay.Steps.{client_read_stage, upstream_read_stage}
use flux_gate.Session.Relay.Event.{
  transfer_stage-Relay, connect_stage-Relay, error_stage-Relay, handle_event-Relay,
}

-- The client's side is taken as ended, and what has been read from it is `xs`.
pub record IsEnded {S : Type 0} (xs : List ℕ) (l : Live S) : Type 0 where
  pub ended : l.session.client_read_closed ≡ true
  pub still : bytes_read l.session.client_fd l.world.trace ≡ xs

abbrev pub StageEnded : {S : Type 0} → List ℕ → Stage S → Type 0
StageEnded xs (err r) = IsEnded xs r.1
StageEnded xs (ok l) = IsEnded xs l

pub StageEnded-bind :
    {S : Type 0} (xs : List ℕ) (shape : Shape) (s : Stage S) (f : Live S → Stage S)
    → StageEnded xs s
    → StageRelay shape s
    → ((l : Live S) → Relay shape l → IsEnded xs l → StageEnded xs (f l))
    → StageEnded xs (s >>= f)
StageEnded-bind xs shape (err r) f h r' g = h
StageEnded-bind xs shape (ok l) f h r' g = g l r' h

module _ {S : Type 0} (k : Kernel S) (law : IsKernel k) (shape : Shape) (xs : List ℕ) where
  connect_result-IsEnded :
      (l : Live S) (o : Option ℕ × S) → IsEnded xs l → IsEnded xs (connect_result k l o).1
  unfolding connect_result
  connect_result-IsEnded l (none, s) h = record { ended = h.ended; still = h.still }
  connect_result-IsEnded l (some e, s) h = elim (Bool-cases (not (e == 0))) [
    | inl bad ↦ rw bad (record { ended = h.ended; still = h.still })
    | inr good ↦ rw good (record { ended = h.ended; still = h.still })
  ]

  after_connect-IsEnded : (r : Bool × Live S) → IsEnded xs r.1 → StageEnded xs (after_connect r)
  unfolding after_connect
  after_connect-IsEnded (true, l) h = h
  after_connect-IsEnded (false, l) h = record { ended = h.ended; still = h.still }

  connect_stage-IsEnded :
      (fd : ℕ) (ev : Events) (l : Live S) → IsEnded xs l → StageEnded xs (connect_stage k fd ev l)
  unfolding connect_stage
  connect_stage-IsEnded fd ev l h =
      elim (Bool-cases (fd == l.session.upstream_fd && l.session.upstream_connecting)) [
        | inr other ↦ rw other h
        | inl pending ↦
            rw pending (elim (Bool-cases (not (ev.writable || ev.failing || ev.hangup))) [
              | inl early ↦ rw early h
              | inr ready ↦ rw ready (
                  after_connect-IsEnded _
                    (connect_result-IsEnded l (k.so_error l.world.kernel l.session.upstream_fd) h))
            ])
      ]

  error_stage-IsEnded :
      (fd : ℕ) (ev : Events) (l : Live S) → IsEnded xs l → StageEnded xs (error_stage k fd ev l)
  unfolding error_stage
  error_stage-IsEnded fd ev l h = elim (Bool-cases ev.failing) [
    | inr fine ↦ rw fine h
    | inl bad ↦ rw bad (record { ended = h.ended; still = h.still })
  ]

  client_read-IsEnded :
      (ev : Events) (l : Live S) → IsEnded xs l → StageEnded xs (client_read k ev l)
  unfolding client_read
  client_read-IsEnded ev l h =
      let skipped : (not l.session.client_read_closed && wants_read ev) ≡ false = rw h.ended in
      rw skipped h

  after_write-IsEnded : (r : IoResult) (m : Live S) → IsEnded xs m → StageEnded xs (after_write r m)
  unfolding after_write
  after_write-IsEnded error m h = record { ended = h.ended; still = h.still }
  after_write-IsEnded closed m h = record { ended = h.ended; still = h.still }
  after_write-IsEnded progress m h = h
  after_write-IsEnded would_block m h = h

  pub client_write-IsEnded :
      (ev : Events) (l : Live S)
      → Relay shape l
      → IsEnded xs l
      → StageEnded xs (client_write k ev l)
  unfolding client_write
  client_write-IsEnded ev l r h =
      elim (Bool-cases (ev.writable && not (is_empty l.session.upstream_to_client))) [
        | inr idle ↦ rw idle h
        | inl go ↦
            let w =
              write_from-WroteTo k law l.session.client_fd (upstream_transfer l) r.down_valid in
            rw go (
              after_write-IsEnded _ _
                (record { ended = h.ended; still = w.1.silent l.session.client_fd ∙ h.still }))
      ]

  upstream_write-IsEnded :
      (ev : Events) (l : Live S)
      → Relay shape l
      → IsEnded xs l
      → StageEnded xs (upstream_write k ev l)
  unfolding upstream_write
  upstream_write-IsEnded ev l r h =
      elim (Bool-cases (ev.writable && not (is_empty l.session.client_to_upstream))) [
        | inr idle ↦ rw idle h
        | inl go ↦
            let w = write_from-WroteTo k law l.session.upstream_fd (client_transfer l) r.up_valid in
            rw go (
              after_write-IsEnded _ _
                (record { ended = h.ended; still = w.1.silent l.session.client_fd ∙ h.still }))
      ]

  after_upstream_read-IsEnded :
      (ev : Events) (l : Live S) (r : IoResult × Transfer S)
      → IsEnded xs (with_upstream_buffer l r.1)
      → StageEnded xs (after_upstream_read ev l r)
  unfolding after_upstream_read
  after_upstream_read-IsEnded ev l (error, t) h = record { ended = h.ended; still = h.still }
  after_upstream_read-IsEnded ev l (progress, t) h = record { ended = h.ended; still = h.still }
  after_upstream_read-IsEnded ev l (would_block, t) h = record { ended = h.ended; still = h.still }
  after_upstream_read-IsEnded ev l (closed, t) h = record { ended = h.ended; still = h.still }

  upstream_read-IsEnded :
      (ev : Events) (l : Live S)
      → Relay shape l
      → IsEnded xs l
      → StageEnded xs (upstream_read k ev l)
  unfolding upstream_read
  upstream_read-IsEnded ev l r h =
      elim (Bool-cases (not l.session.upstream_read_closed && wants_read ev)) [
        | inr idle ↦ rw idle h
        | inl go ↦
            let m =
              read_into-ReadFrom k law l.session.upstream_fd false (upstream_transfer l)
                r.down_valid in
            rw go (
              after_upstream_read-IsEnded ev l _ (record {
                ended = h.ended;
                still = m.1.others l.session.client_fd r.apart ∙ h.still;
              }))
      ]

  transfer_stage-IsEnded :
      (fd : ℕ) (ev : Events) (l : Live S)
      → Relay shape l
      → IsEnded xs l
      → StageEnded xs (transfer_stage k fd ev l)
  unfolding transfer_stage
  transfer_stage-IsEnded fd ev l r h = elim (Bool-cases (fd == l.session.client_fd)) [
    | inl client ↦ rw client (
        StageEnded-bind xs shape (client_read k ev l) (client_write k ev)
          (client_read-IsEnded ev l h) (client_read_stage k law shape ev l r)
          (client_write-IsEnded ev))
    | inr other ↦ rw other (elim (Bool-cases (fd == l.session.upstream_fd)) [
      | inl upstream ↦ rw upstream (
          StageEnded-bind xs shape (upstream_read k ev l) (upstream_write k ev)
            (upstream_read-IsEnded ev l r h) (upstream_read_stage k law shape ev l r)
            (upstream_write-IsEnded ev))
      | inr unknown ↦ rw unknown (record { ended = h.ended; still = h.still })
    ])
  ]

  shut_upstream-IsEnded : (l : Live S) → IsEnded xs l → IsEnded xs (shut_upstream k l)
  unfolding shut_upstream
  shut_upstream-IsEnded l h =
      elim (Bool-cases (
        l.session.client_read_closed
        && is_empty l.session.client_to_upstream
        && not l.session.upstream_write_shutdown
        && not l.session.upstream_connecting)) [
          | inr idle ↦ rw idle h
          | inl go ↦ rw go (record { ended = h.ended; still = h.still })
        ]

  shut_client-IsEnded : (l : Live S) → IsEnded xs l → IsEnded xs (shut_client k l)
  unfolding shut_client
  shut_client-IsEnded l h =
      elim (Bool-cases (
        l.session.upstream_read_closed
        && is_empty l.session.upstream_to_client
        && not l.session.client_write_shutdown)) [
          | inr idle ↦ rw idle h
          | inl go ↦ rw go (record { ended = h.ended; still = h.still })
        ]

  pub finish_stage-IsEnded : (l : Live S) → IsEnded xs l → StageEnded xs (finish_stage k l)
  unfolding finish_stage
  finish_stage-IsEnded l h =
      let h' = shut_client-IsEnded _ (shut_upstream-IsEnded l h) in
      elim (Bool-cases (is_completed (update_half_close k l).session)) [
        | inl over ↦ rw over (record { ended = h'.ended; still = h'.still })
        | inr more ↦ rw more h'
      ]

  handle_stages-IsEnded :
      (fd : ℕ) (ev : Events) (l : Live S)
      → Relay shape l
      → IsEnded xs l
      → StageEnded xs (handle_stages k fd ev l)
  unfolding handle_stages
  handle_stages-IsEnded fd ev l r h =
      StageEnded-bind xs shape (connect_stage k fd ev l) _ (connect_stage-IsEnded fd ev l h)
        (connect_stage-Relay k law shape fd ev l r)
        λ m r1 h1.
          StageEnded-bind xs shape (error_stage k fd ev m) _ (error_stage-IsEnded fd ev m h1)
            (error_stage-Relay k law shape fd ev m r1)
            λ n r2 h2.
              StageEnded-bind xs shape (transfer_stage k fd ev n) (finish_stage k)
                (transfer_stage-IsEnded fd ev n r2 h2) (transfer_stage-Relay k law shape fd ev n r2)
                (λ o r3 h3. finish_stage-IsEnded o h3)

  pub returned-IsEnded : (s : Stage S) → StageEnded xs s → IsEnded xs (returned s).1
  returned-IsEnded (err r) h = h
  returned-IsEnded (ok l) h = h

  handle_event-IsEnded :
      (fd : ℕ) (ev : Events) (l : Live S)
      → Relay shape l
      → IsEnded xs l
      → IsEnded xs (handle_event k fd ev l).1
  unfolding handle_event
  handle_event-IsEnded fd ev l r h = elim (Bool-cases l.session.closing) [
    | inl over ↦ simp over h
    | inr live ↦ simp live (returned-IsEnded _ (handle_stages-IsEnded fd ev l r h))
  ]

  pub run_events-IsEnded :
      (es : List (ℕ × Events)) (l : Live S)
      → Relay shape l
      → IsEnded xs l
      → IsEnded xs (run_events k es l)
  unfolding run_events
  run_events-IsEnded [] l r h = h
  run_events-IsEnded ((fd, ev) ∷ es) l r h =
      run_events-IsEnded es _ (handle_event-Relay k law shape fd ev l r)
        (handle_event-IsEnded fd ev l r h)
