-- ===== src/Session/Relay/Steps.antt =====
-- The stages of `ProxySession::handleEvent` (src/ProxySession.cpp) and what the session relays.
use flux_gate.Base.{◌≡◌, refl, inl, inr, Bool, true, false, not, ◌&&◌, ◌||◌, Bool-cases}
use flux_gate.Buffer.{is_empty}
use flux_gate.Io.{Kernel, IsKernel}
use flux_gate.Session.Loops.{IoResult, progress, would_block, closed, error, Transfer}
use flux_gate.Session.Loops.Reading.{read_into-ReadFrom}
use flux_gate.Session.Loops.Writing.{write_from-WroteTo}
use flux_gate.Session.State.{Events, Live}
use flux_gate.Session.Stages.{
  stop, client_transfer, upstream_transfer, with_client_buffer, with_upstream_buffer,
  after_client_read, after_upstream_read, after_write, wants_read, is_end, client_read,
  client_write, upstream_read, upstream_write,
}
use flux_gate.Session.Relay.{
  Shape, Relay, StageRelay, client_read-Relay, upstream_read-Relay, upstream_write-Relay,
  client_write-Relay,
}

or_true : (a b : Bool) → b ≡ true → (a || b) ≡ true
or_true true b h = refl
or_true false b h = h

module _ {S : Type 0} (k : Kernel S) (law : IsKernel k) (shape : Shape) where
  -- Marking a side as ended, or the session as closing, keeps it.
  pub end_client :
      (l : Live S) (c : Bool)
      → Relay shape l
      → Relay shape (record l {
        session = record (l.session) { client_read_closed = c || l.session.client_read_closed };
      })
  end_client l c r = record {
    apart = r.apart;
    client_is = r.client_is;
    upstream_is = r.upstream_is;
    up_valid = r.up_valid;
    down_valid = r.down_valid;
    up_size = r.up_size;
    down_size = r.down_size;
    forward = r.forward;
    backward = r.backward;
    up_told = r.up_told;
    down_told = r.down_told;
    up_shut = λ h. let s = r.up_shut h in (or_true c _ s.0, s.1);
    down_shut = r.down_shut;
  }

  pub end_upstream :
      (l : Live S) (c : Bool)
      → Relay shape l
      → Relay shape (record l {
        session = record (l.session) { upstream_read_closed = c || l.session.upstream_read_closed };
      })
  end_upstream l c r = record {
    apart = r.apart;
    client_is = r.client_is;
    upstream_is = r.upstream_is;
    up_valid = r.up_valid;
    down_valid = r.down_valid;
    up_size = r.up_size;
    down_size = r.down_size;
    forward = r.forward;
    backward = r.backward;
    up_told = r.up_told;
    down_told = r.down_told;
    up_shut = r.up_shut;
    down_shut = λ h. let s = r.down_shut h in (or_true c _ s.0, s.1);
  }

  pub stop-Relay : (l : Live S) → Relay shape l → Relay shape (stop l).1
  stop-Relay l r = record {
    apart = r.apart;
    client_is = r.client_is;
    upstream_is = r.upstream_is;
    up_valid = r.up_valid;
    down_valid = r.down_valid;
    up_size = r.up_size;
    down_size = r.down_size;
    forward = r.forward;
    backward = r.backward;
    up_told = r.up_told;
    down_told = r.down_told;
    up_shut = r.up_shut;
    down_shut = r.down_shut;
  }

  after_client_read-Relay :
      (ev : Events) (l : Live S) (r : IoResult × Transfer S)
      → Relay shape (with_client_buffer l r.1)
      → StageRelay shape (after_client_read ev l r)
  unfolding after_client_read
  after_client_read-Relay ev l (error, t) h = stop-Relay (with_client_buffer l t) h
  after_client_read-Relay ev l (progress, t) h =
      end_client (with_client_buffer l t) (is_end ev progress) h
  after_client_read-Relay ev l (would_block, t) h =
      end_client (with_client_buffer l t) (is_end ev would_block) h
  after_client_read-Relay ev l (closed, t) h = end_client (with_client_buffer l t) true h

  after_upstream_read-Relay :
      (ev : Events) (l : Live S) (r : IoResult × Transfer S)
      → Relay shape (with_upstream_buffer l r.1)
      → StageRelay shape (after_upstream_read ev l r)
  unfolding after_upstream_read
  after_upstream_read-Relay ev l (error, t) h = stop-Relay (with_upstream_buffer l t) h
  after_upstream_read-Relay ev l (progress, t) h =
      end_upstream (with_upstream_buffer l t) (is_end ev progress) h
  after_upstream_read-Relay ev l (would_block, t) h =
      end_upstream (with_upstream_buffer l t) (is_end ev would_block) h
  after_upstream_read-Relay ev l (closed, t) h = end_upstream (with_upstream_buffer l t) true h

  after_write-Relay :
      (r : IoResult) (m : Live S) → Relay shape m → StageRelay shape (after_write r m)
  unfolding after_write
  after_write-Relay error m h = stop-Relay m h
  after_write-Relay closed m h = stop-Relay m h
  after_write-Relay progress m h = h
  after_write-Relay would_block m h = h

  pub and_left : (a b : Bool) → (a && b) ≡ true → a ≡ true
  and_left true b h = refl
  and_left false b h = cc

  pub not-true : (a : Bool) → not a ≡ true → a ≡ false
  not-true true h = cc
  not-true false h = refl

  pub client_read_stage :
      (ev : Events) (l : Live S) → Relay shape l → StageRelay shape (client_read k ev l)
  unfolding client_read
  client_read_stage ev l r = elim (Bool-cases (not l.session.client_read_closed && wants_read ev)) [
    | inr idle ↦ rw idle r
    | inl go ↦ rw go (
        after_client_read-Relay ev l _ (
          client_read-Relay shape l _ r (not-true _ (and_left _ _ go))
            (read_into-ReadFrom k law l.session.client_fd true (client_transfer l) r.up_valid).1))
  ]

  pub upstream_read_stage :
      (ev : Events) (l : Live S) → Relay shape l → StageRelay shape (upstream_read k ev l)
  unfolding upstream_read
  upstream_read_stage ev l r =
      elim (Bool-cases (not l.session.upstream_read_closed && wants_read ev)) [
        | inr idle ↦ rw idle r
        | inl go ↦ rw go (
            after_upstream_read-Relay ev l _ (
              upstream_read-Relay shape l _ r (not-true _ (and_left _ _ go))
                (read_into-ReadFrom k law l.session.upstream_fd false (upstream_transfer l)
                  r.down_valid).1))
      ]

  pub client_write_stage :
      (ev : Events) (l : Live S) → Relay shape l → StageRelay shape (client_write k ev l)
  unfolding client_write
  client_write_stage ev l r =
      elim (Bool-cases (ev.writable && not (is_empty l.session.upstream_to_client))) [
        | inr idle ↦ rw idle r
        | inl go ↦ rw go (
            after_write-Relay _ _ (
              client_write-Relay shape l _ r
                (write_from-WroteTo k law l.session.client_fd (upstream_transfer l)
                  r.down_valid).1))
      ]

  pub upstream_write_stage :
      (ev : Events) (l : Live S) → Relay shape l → StageRelay shape (upstream_write k ev l)
  unfolding upstream_write
  upstream_write_stage ev l r =
      elim (Bool-cases (ev.writable && not (is_empty l.session.client_to_upstream))) [
        | inr idle ↦ rw idle r
        | inl go ↦ rw go (
            after_write-Relay _ _ (
              upstream_write-Relay shape l _ r
                (write_from-WroteTo k law l.session.upstream_fd (client_transfer l) r.up_valid).1))
      ]
