-- ===== src/Session/Relay.antt =====
-- What src/ProxySession.cpp relays: the invariant of a session and of its trace of calls.
pub mod Steps
pub mod Event
pub mod Runs
use flux_gate.Base.{
  ℕ, suc, ◌≤◌, ◌<◌, ◌≡◌, ◌≢◌, refl, sym, ap, ◌∙◌, Bool, true, false, ◌||◌, List, [], ◌∷◌, ◌++◌,
  append_assoc, ok, err, Result, ◌>>=◌, arith, word_mod,
}
use flux_gate.Buffer.{ByteBuffer}
use flux_gate.Buffer.Content.{IsValid, capacity, content}
use flux_gate.Io.{World, Call, bytes_read, bytes_written, shuts_of}
use flux_gate.Session.Loops.{Transfer}
use flux_gate.Session.Loops.Reading.{ReadFrom}
use flux_gate.Session.Loops.Writing.{WroteTo}
use flux_gate.Session.State.{Session, Live}
use flux_gate.Session.Stages.{
  Stage, client_transfer, upstream_transfer, with_client_buffer, with_upstream_buffer,
}

-- What never changes in a session: its descriptors, the capacity of its buffers, and how often its
-- descriptors were shut before.
pub record Shape : Type 0 where
  pub client_fd : ℕ
  pub upstream_fd : ℕ
  pub size : ℕ
  pub client_shuts : ℕ
  pub upstream_shuts : ℕ

-- The calls of shutdown() that a flag stands for, with those before.
abbrev pub told_of : Bool → ℕ → ℕ
told_of true before = suc before
told_of false before = before

pub record Relay {S : Type 0} (shape : Shape) (l : Live S) : Type 0 where
  pub client_is : l.session.client_fd ≡ shape.client_fd
  pub upstream_is : l.session.upstream_fd ≡ shape.upstream_fd
  pub apart : l.session.client_fd ≢ l.session.upstream_fd
  pub up_valid : IsValid l.session.client_to_upstream
  pub down_valid : IsValid l.session.upstream_to_client
  pub up_size : capacity l.session.client_to_upstream ≡ shape.size
  pub down_size : capacity l.session.upstream_to_client ≡ shape.size
  pub forward :
      bytes_read l.session.client_fd l.world.trace
      ≡ bytes_written l.session.upstream_fd l.world.trace ++ content l.session.client_to_upstream
  pub backward :
      bytes_read l.session.upstream_fd l.world.trace
      ≡ bytes_written l.session.client_fd l.world.trace ++ content l.session.upstream_to_client
  pub up_told :
      shuts_of l.session.upstream_fd l.world.trace
      ≡ told_of l.session.upstream_write_shutdown shape.upstream_shuts
  pub down_told :
      shuts_of l.session.client_fd l.world.trace
      ≡ told_of l.session.client_write_shutdown shape.client_shuts
  -- A side is shut only when the other has ended and all that it sent has been passed on.
  pub up_shut :
      l.session.upstream_write_shutdown ≡ true
      → (l.session.client_read_closed ≡ true) × (content l.session.client_to_upstream ≡ [])
  pub down_shut :
      l.session.client_write_shutdown ≡ true
      → (l.session.upstream_read_closed ≡ true) × (content l.session.upstream_to_client ≡ [])

abbrev pub StageRelay : {S : Type 0} → Shape → Stage S → Type 0
StageRelay shape (err r) = Relay shape r.1
StageRelay shape (ok l) = Relay shape l

pub StageRelay-bind :
    {S : Type 0} (shape : Shape) (s : Stage S) (f : Live S → Stage S)
    → StageRelay shape s
    → ((l : Live S) → Relay shape l → StageRelay shape (f l))
    → StageRelay shape (s >>= f)
StageRelay-bind shape (err r) f h g = h
StageRelay-bind shape (ok l) f h g = g l h

nil_of_append : (xs ys : List ℕ) → xs ++ ys ≡ [] → ys ≡ []
nil_of_append [] ys h = h
nil_of_append (x ∷ xs) ys h = cc

module _ {S : Type 0} (shape : Shape) (l : Live S) (t : Transfer S) (r : Relay shape l) where
  -- Bytes arrive from the client.
  pub client_read-Relay :
      l.session.client_read_closed ≡ false
      → ReadFrom l.session.client_fd (client_transfer l) t
      → Relay shape (with_client_buffer l t)
  client_read-Relay live m = record {
    apart = r.apart;
    client_is = r.client_is;
    upstream_is = r.upstream_is;
    up_valid = m.valid;
    down_valid = r.down_valid;
    up_size = m.sized ∙ r.up_size;
    down_size = r.down_size;
    forward =
        rw (m.taken, m.silent l.session.upstream_fd, m.stored, r.forward)
          (append_assoc (bytes_written l.session.upstream_fd l.world.trace)
            (content l.session.client_to_upstream) m.moved);
    backward =
        rw (m.others l.session.upstream_fd (λ e. r.apart (sym e)), m.silent l.session.client_fd)
          r.backward;
    up_told = m.unshut l.session.upstream_fd ∙ r.up_told;
    down_told = m.unshut l.session.client_fd ∙ r.down_told;
    up_shut = λ h. cc ((r.up_shut h).0, live);
    down_shut = r.down_shut;
  }

  -- Bytes arrive from the backend.
  pub upstream_read-Relay :
      l.session.upstream_read_closed ≡ false
      → ReadFrom l.session.upstream_fd (upstream_transfer l) t
      → Relay shape (with_upstream_buffer l t)
  upstream_read-Relay live m = record {
    apart = r.apart;
    client_is = r.client_is;
    upstream_is = r.upstream_is;
    up_valid = r.up_valid;
    down_valid = m.valid;
    up_size = r.up_size;
    down_size = m.sized ∙ r.down_size;
    forward = rw (m.others l.session.client_fd r.apart, m.silent l.session.upstream_fd) r.forward;
    backward =
        rw (m.taken, m.silent l.session.client_fd, m.stored, r.backward)
          (append_assoc (bytes_written l.session.client_fd l.world.trace)
            (content l.session.upstream_to_client) m.moved);
    up_told = m.unshut l.session.upstream_fd ∙ r.up_told;
    down_told = m.unshut l.session.client_fd ∙ r.down_told;
    up_shut = r.up_shut;
    down_shut = λ h. cc ((r.down_shut h).0, live);
  }

  -- Bytes leave for the backend.
  pub upstream_write-Relay :
      WroteTo l.session.upstream_fd (client_transfer l) t → Relay shape (with_client_buffer l t)
  upstream_write-Relay m = record {
    apart = r.apart;
    client_is = r.client_is;
    upstream_is = r.upstream_is;
    up_valid = m.valid;
    down_valid = r.down_valid;
    up_size = m.sized ∙ r.up_size;
    down_size = r.down_size;
    forward =
        rw (m.given, m.silent l.session.client_fd, r.forward, m.kept)
          (sym (
            append_assoc (bytes_written l.session.upstream_fd l.world.trace) m.moved
              (content t.buffer)));
    backward = rw (m.silent l.session.upstream_fd, m.others l.session.client_fd r.apart) r.backward;
    up_told = m.unshut l.session.upstream_fd ∙ r.up_told;
    down_told = m.unshut l.session.client_fd ∙ r.down_told;
    up_shut = λ h.
        let s = r.up_shut h in (s.0, nil_of_append m.moved (content t.buffer) (sym m.kept ∙ s.1));
    down_shut = r.down_shut;
  }

  -- Bytes leave for the client.
  pub client_write-Relay :
      WroteTo l.session.client_fd (upstream_transfer l) t → Relay shape (with_upstream_buffer l t)
  client_write-Relay m = record {
    apart = r.apart;
    client_is = r.client_is;
    upstream_is = r.upstream_is;
    up_valid = r.up_valid;
    down_valid = m.valid;
    up_size = r.up_size;
    down_size = m.sized ∙ r.down_size;
    forward =
        rw (m.silent l.session.client_fd, m.others l.session.upstream_fd (λ e. r.apart (sym e)))
          r.forward;
    backward =
        rw (m.given, m.silent l.session.upstream_fd, r.backward, m.kept)
          (sym (
            append_assoc (bytes_written l.session.client_fd l.world.trace) m.moved
              (content t.buffer)));
    up_told = m.unshut l.session.upstream_fd ∙ r.up_told;
    down_told = m.unshut l.session.client_fd ∙ r.down_told;
    up_shut = r.up_shut;
    down_shut = λ h.
        let s = r.down_shut h in (s.0, nil_of_append m.moved (content t.buffer) (sym m.kept ∙ s.1));
  }
