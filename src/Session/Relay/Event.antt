-- ===== src/Session/Relay/Event.antt =====
-- `ProxySession::handleEvent` (src/ProxySession.cpp) over any events of a session's life.
use flux_gate.Base.{
  ℕ, suc, ◌≡◌, ◌≢◌, refl, sym, ap, ◌∙◌, ==_refl, ==_iff, List, ◌∷◌, inl, inr, Bool, true, false,
  not, ◌&&◌, ◌||◌, Option, none, some, ◌==◌, ok, err, arith, Bool-cases,
}
use flux_gate.Buffer.{is_empty}
use flux_gate.Buffer.Content.{is_empty_iff}
use flux_gate.Pool.{Pool}
use flux_gate.Metrics.{Metrics}
use flux_gate.Io.{Kernel, IsKernel, Call, shuts, shuts_of}
use flux_gate.Session.State.{Events, Live, connect_result}
use flux_gate.Session.Stages.{
  Stage, after_connect, connect_stage, error_stage, client_read, client_write, upstream_read,
  upstream_write, transfer_stage,
}
use flux_gate.Session.Handler.{
  is_completed, shut_upstream, shut_client, update_half_close, finish_stage, handle_stages,
  returned, handle_event,
}
use flux_gate.Session.Relay.{Shape, Relay, StageRelay, StageRelay-bind, told_of}
use flux_gate.Session.Relay.Steps.{
  not-true, stop-Relay, client_read_stage, upstream_read_stage, client_write_stage,
  upstream_write_stage,
}

and_right : (a b : Bool) → (a && b) ≡ true → b ≡ true
and_right true b h = h
and_right false b h = cc

four_true : (a b c d : Bool) → (a && b && c && d) ≡ true → (a ≡ true) × (b ≡ true) × (c ≡ true)
four_true a b c d h = ground arith

three_true : (a b c : Bool) → (a && b && c) ≡ true → (a ≡ true) × (b ≡ true) × (c ≡ true)
three_true a b c h = ground arith

shuts-other : (f g : ℕ) (t : List Call) → f ≢ g → shuts_of g (shuts f ∷ t) ≡ shuts_of g t
shuts-other f g t apart = elim (Bool-cases (f == g)) [
  | inl same ↦ absurd (apart ((==_iff f g).0 same))
  | inr other ↦ rw other refl
]

-- The first call for a descriptor is counted once.
told :
    (f before : ℕ) (t : List Call) (flag : Bool)
    → flag ≡ false
    → shuts_of f t ≡ told_of flag before
    → shuts_of f (shuts f ∷ t) ≡ suc before
told f before t flag unset e = rw (==_refl f) (ap suc (rw unset at e))

module _ {S : Type 0} (k : Kernel S) (law : IsKernel k) (shape : Shape) where
  -- A change of the kernel's state, the pool or the counters moves no byte.
  elsewhere :
      (l : Live S) (s : S) (p : Pool) (m : Metrics)
      → Relay shape l
      → Relay shape (record l { world = record (l.world) { kernel = s; pool = p; metrics = m } })
  elsewhere l s p m r = record {
    apart = r.apart;
    client_is = r.client_is;
    upstream_is = r.upstream_is;
    up_valid = r.up_valid;
    down_valid = r.down_valid;
    up_size = r.up_size;
    down_size = r.down_size;
    forward = r.forward;
    backward = r.backward;
    up_told = r.up_told;
    down_told = r.down_told;
    up_shut = r.up_shut;
    down_shut = r.down_shut;
  }

  connected :
      (l : Live S) (s : S) (p : Pool) (now : ℕ)
      → Relay shape l
      → Relay shape (record {
        session = record (l.session) { upstream_connecting = false; last_activity = now };
        world = record (l.world) { kernel = s; pool = p };
      })
  connected l s p now r = record {
    apart = r.apart;
    client_is = r.client_is;
    upstream_is = r.upstream_is;
    up_valid = r.up_valid;
    down_valid = r.down_valid;
    up_size = r.up_size;
    down_size = r.down_size;
    forward = r.forward;
    backward = r.backward;
    up_told = r.up_told;
    down_told = r.down_told;
    up_shut = r.up_shut;
    down_shut = r.down_shut;
  }

  pub connect_result-Relay :
      (l : Live S) (o : Option ℕ × S) → Relay shape l → Relay shape (connect_result k l o).1
  unfolding connect_result
  connect_result-Relay l (none, s) r = elsewhere l s _ _ r
  connect_result-Relay l (some e, s) r = elim (Bool-cases (not (e == 0))) [
    | inl bad ↦ rw bad (elsewhere l s _ _ r)
    | inr good ↦ rw good (connected l s _ _ r)
  ]

  after_connect-Relay : (r : Bool × Live S) → Relay shape r.1 → StageRelay shape (after_connect r)
  unfolding after_connect
  after_connect-Relay (true, l) r = r
  after_connect-Relay (false, l) r = stop-Relay k law shape l r

  pub connect_stage-Relay :
      (fd : ℕ) (ev : Events) (l : Live S)
      → Relay shape l
      → StageRelay shape (connect_stage k fd ev l)
  unfolding connect_stage
  connect_stage-Relay fd ev l r =
      elim (Bool-cases (fd == l.session.upstream_fd && l.session.upstream_connecting)) [
        | inr other ↦ rw other r
        | inl pending ↦
            rw pending (elim (Bool-cases (not (ev.writable || ev.failing || ev.hangup))) [
              | inl early ↦ rw early r
              | inr ready ↦ rw ready (
                  after_connect-Relay _
                    (connect_result-Relay l (k.so_error l.world.kernel l.session.upstream_fd) r))
            ])
      ]

  pub error_stage-Relay :
      (fd : ℕ) (ev : Events) (l : Live S) → Relay shape l → StageRelay shape (error_stage k fd ev l)
  unfolding error_stage
  error_stage-Relay fd ev l r = elim (Bool-cases ev.failing) [
    | inr fine ↦ rw fine r
    | inl bad ↦ rw bad (stop-Relay k law shape _ (elsewhere l _ _ _ r))
  ]

  pub transfer_stage-Relay :
      (fd : ℕ) (ev : Events) (l : Live S)
      → Relay shape l
      → StageRelay shape (transfer_stage k fd ev l)
  unfolding transfer_stage
  transfer_stage-Relay fd ev l r = elim (Bool-cases (fd == l.session.client_fd)) [
    | inl client ↦ rw client (
        StageRelay-bind shape (client_read k ev l) (client_write k ev)
          (client_read_stage k law shape ev l r) (client_write_stage k law shape ev))
    | inr other ↦ rw other (elim (Bool-cases (fd == l.session.upstream_fd)) [
      | inl upstream ↦ rw upstream (
          StageRelay-bind shape (upstream_read k ev l) (upstream_write k ev)
            (upstream_read_stage k law shape ev l r) (upstream_write_stage k law shape ev))
      | inr unknown ↦ rw unknown (stop-Relay k law shape l r)
    ])
  ]

  pub shut_upstream-Relay : (l : Live S) → Relay shape l → Relay shape (shut_upstream k l)
  unfolding shut_upstream
  shut_upstream-Relay l r =
      elim (Bool-cases (
        l.session.client_read_closed
        && is_empty l.session.client_to_upstream
        && not l.session.upstream_write_shutdown
        && not l.session.upstream_connecting)) [
          | inr idle ↦ rw idle r
          | inl go ↦
              let c = four_true _ _ _ _ go in
              rw go (record {
                apart = r.apart;
                client_is = r.client_is;
                upstream_is = r.upstream_is;
                up_valid = r.up_valid;
                down_valid = r.down_valid;
                up_size = r.up_size;
                down_size = r.down_size;
                forward = r.forward;
                backward = r.backward;
                up_told =
                    told l.session.upstream_fd _ l.world.trace l.session.upstream_write_shutdown
                      (not-true k law shape _ c.2) r.up_told;
                down_told =
                    shuts-other l.session.upstream_fd l.session.client_fd l.world.trace
                      (λ e. r.apart (sym e))
                    ∙ r.down_told;
                up_shut = λ h. (c.0, (is_empty_iff l.session.client_to_upstream r.up_valid).0 c.1);
                down_shut = r.down_shut;
              })
        ]

  pub shut_client-Relay : (l : Live S) → Relay shape l → Relay shape (shut_client k l)
  unfolding shut_client
  shut_client-Relay l r =
      elim (Bool-cases (
        l.session.upstream_read_closed
        && is_empty l.session.upstream_to_client
        && not l.session.client_write_shutdown)) [
          | inr idle ↦ rw idle r
          | inl go ↦
              let c = three_true _ _ _ go in
              rw go (record {
                apart = r.apart;
                client_is = r.client_is;
                upstream_is = r.upstream_is;
                up_valid = r.up_valid;
                down_valid = r.down_valid;
                up_size = r.up_size;
                down_size = r.down_size;
                forward = r.forward;
                backward = r.backward;
                up_told =
                    shuts-other l.session.client_fd l.session.upstream_fd l.world.trace r.apart
                    ∙ r.up_told;
                down_told =
                    told l.session.client_fd _ l.world.trace l.session.client_write_shutdown
                      (not-true k law shape _ c.2) r.down_told;
                up_shut = r.up_shut;
                down_shut =
                    λ h. (c.0, (is_empty_iff l.session.upstream_to_client r.down_valid).0 c.1);
              })
        ]

  pub finish_stage-Relay : (l : Live S) → Relay shape l → StageRelay shape (finish_stage k l)
  unfolding finish_stage
  finish_stage-Relay l r =
      let r' = shut_client-Relay _ (shut_upstream-Relay l r) in
      elim (Bool-cases (is_completed (update_half_close k l).session)) [
        | inl over ↦ rw over (stop-Relay k law shape _ r')
        | inr more ↦ rw more r'
      ]

  pub handle_stages-Relay :
      (fd : ℕ) (ev : Events) (l : Live S)
      → Relay shape l
      → StageRelay shape (handle_stages k fd ev l)
  unfolding handle_stages
  handle_stages-Relay fd ev l r =
      StageRelay-bind shape (connect_stage k fd ev l) _ (connect_stage-Relay fd ev l r) λ m r1.
        StageRelay-bind shape (error_stage k fd ev m) _ (error_stage-Relay fd ev m r1) λ n r2.
          StageRelay-bind shape (transfer_stage k fd ev n) (finish_stage k)
            (transfer_stage-Relay fd ev n r2) finish_stage-Relay

  returned-Relay : (s : Stage S) → StageRelay shape s → Relay shape (returned s).1
  returned-Relay (err r) h = h
  returned-Relay (ok l) h = h

  -- Whatever one event brings, short reads and writes, errors and end of file included: in each
  -- direction the bytes read are those written, in order, followed by those in the buffer; a side
  -- is shut for writing only when the other has ended and all that it sent has been passed on; and
  -- the buffers keep their shape.
  pub handle_event-Relay :
      (fd : ℕ) (ev : Events) (l : Live S) → Relay shape l → Relay shape (handle_event k fd ev l).1
  unfolding handle_event
  handle_event-Relay fd ev l r = elim (Bool-cases l.session.closing) [
    | inl over ↦ simp over r
    | inr live ↦ simp live (returned-Relay _ (handle_stages-Relay fd ev l r))
  ]
