-- ===== src/Session/Interest.antt =====
-- The events that a session waits for: `clientEvents` and `upstreamEvents` (src/ProxySession.cpp).
use flux_gate.Base.{◌<◌, ◌≡◌, ◌⊎◌, true, false, ltb, arith}
use flux_gate.Buffer.{ByteBuffer, writable_bytes, is_empty}
use flux_gate.Buffer.Content.{IsValid, capacity, writable-eq, readable-eq}
use flux_gate.Session.State.{Live, client_events, upstream_events}
use flux_gate.Session.Relay.{Shape, Relay}

-- A buffer without room at its end has bytes to send.
room_or_bytes :
    (b : ByteBuffer)
    → IsValid b
    → 0 < capacity b
    → (ltb 0 (writable_bytes b) ≡ true) ⊎ (is_empty b ≡ false)
unfolding is_empty
room_or_bytes b v pos =
    ground (arith, writable-eq b v, readable-eq b v, v.ordered, v.fits, v.reset, pos)

module _ {S : Type 0} (shape : Shape) (l : Live S) (r : Relay shape l)
    (filled : 0 < shape.size) where
  -- In a session that keeps the relay's invariant, with buffers of at least a byte, while the
  -- client's end has not been seen the session waits for bytes of the client or for room at the
  -- backend.
  pub no_stall_client :
      l.session.client_read_closed ≡ false
      → ((client_events l.session).readable ≡ true) ⊎ ((upstream_events l.session).writable ≡ true)
  unfolding client_events upstream_events
  no_stall_client h =
      ground (arith, room_or_bytes l.session.client_to_upstream r.up_valid, r.up_size)

  -- In a session that keeps the relay's invariant, with buffers of at least a byte, while the
  -- backend is connected and its end has not been seen the session waits for bytes of the backend
  -- or for room at the client.
  pub no_stall_upstream :
      l.session.upstream_read_closed ≡ false
      → l.session.upstream_connecting ≡ false
      → ((upstream_events l.session).readable ≡ true) ⊎ ((client_events l.session).writable ≡ true)
  unfolding client_events upstream_events
  no_stall_upstream h c =
      ground (arith, room_or_bytes l.session.upstream_to_client r.down_valid, r.down_size)
