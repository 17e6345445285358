-- ===== src/Session/Relay/Runs.antt =====
-- A session (src/ProxySession.cpp) from its birth, over any events.
use flux_gate.Base.{
  ℕ, ◌≤◌, append-nil, ◌<◌, ◌≡◌, ◌≢◌, refl, sym, suc, ◌⊎◌, inl, inr, Bool-cases, Bool, true, false,
  List, [], ◌∷◌, ◌++◌, length, arith, word_mod,
}
use flux_gate.Buffer.{new_buffer}
use flux_gate.Buffer.Content.{
  content, new_buffer-IsValid, capacity-new_buffer, content-new_buffer, length-content,
}
use flux_gate.Backend.{Bytes}
use flux_gate.Pool.{Lease}
use flux_gate.Io.{Kernel, IsKernel, World, bytes_read, bytes_written, shuts_of}
use flux_gate.Session.State.{Events, Live, new_session}
use flux_gate.Session.Handler.{run_events}
use flux_gate.Session.Relay.{Shape, Relay}
use flux_gate.Session.Relay.Event.{handle_event-Relay}

module _ {S : Type 0} (k : Kernel S) (law : IsKernel k) (shape : Shape) where
  pub run_events-Relay :
      (es : List (ℕ × Events)) (l : Live S) → Relay shape l → Relay shape (run_events k es l)
  unfolding run_events
  run_events-Relay [] l r = r
  run_events-Relay ((fd, ev) ∷ es) l r =
      run_events-Relay es _ (handle_event-Relay k law shape fd ev l r)

-- A session that starts in `w`, where its descriptors are new, and lives through `es`.
module _ {S : Type 0} (k : Kernel S) (law : IsKernel k) (id client upstream size : ℕ)
    (connecting : Bool) (backend : Lease) (address : Bytes) (w : World S) (es : List (ℕ × Events))
    (apart : client ≢ upstream) (small : size < word_mod)
    (unread : (bytes_read client w.trace ≡ []) × (bytes_read upstream w.trace ≡ []))
    (unwritten : (bytes_written client w.trace ≡ []) × (bytes_written upstream w.trace ≡ [])) where
  abbrev pub shape_of : Shape
  shape_of = record {
    client_fd = client;
    upstream_fd = upstream;
    size = size;
    client_shuts = shuts_of client w.trace;
    upstream_shuts = shuts_of upstream w.trace;
  }

  pub born-Relay :
      Relay shape_of (new_session k id client upstream connecting backend size address w)
  unfolding new_session
  born-Relay = record {
    client_is = refl;
    upstream_is = refl;
    apart = apart;
    up_valid = new_buffer-IsValid size small;
    down_valid = new_buffer-IsValid size small;
    up_size = capacity-new_buffer size;
    down_size = capacity-new_buffer size;
    forward = traced client upstream unread.0 unwritten.1;
    backward = traced upstream client unread.1 unwritten.0;
    up_told = untold upstream;
    down_told = untold client;
    up_shut = λ h. cc;
    down_shut = λ h. cc;
  }
    where
      untold :
          (g : ℕ)
          → shuts_of g
              (new_session k id client upstream connecting backend size address w).world.trace
            ≡ shuts_of g w.trace
      untold g = ground arith

      traced :
          (f g : ℕ)
          → bytes_read f w.trace ≡ []
          → bytes_written g w.trace ≡ []
          → bytes_read f
              (new_session k id client upstream connecting backend size address w).world.trace
            ≡ bytes_written g
                (new_session k id client upstream connecting backend size address w).world.trace
              ++ content (new_buffer size)
      traced f g hr hw = ground (arith, content-new_buffer size)

  abbrev pub lived : Live S
  lived = run_events k es (new_session k id client upstream connecting backend size address w)

  lived-Relay : Relay shape_of lived
  lived-Relay = run_events-Relay k law shape_of es _ born-Relay

  -- On a lawful kernel, for a session on two distinct descriptors that the trace has neither read
  -- nor written, and a buffer size below 2 ^ 64: whatever the events, short reads and writes,
  -- interruptions and errors, in each direction the bytes read from one side are the bytes
  -- written to the other followed by the content of the buffer between them, which is at most the
  -- buffer size.
  pub relay_in_order :
      (bytes_read client lived.world.trace
        ≡ bytes_written upstream lived.world.trace ++ content lived.session.client_to_upstream)
      × (bytes_read upstream lived.world.trace
          ≡ bytes_written client lived.world.trace ++ content lived.session.upstream_to_client)
      × (length (content lived.session.client_to_upstream) ≤ size)
      × (length (content lived.session.upstream_to_client) ≤ size)
  relay_in_order =
      let r = lived-Relay in
      (
        rw (r.client_is, r.upstream_is) at r.forward,
        rw (r.client_is, r.upstream_is) at r.backward,
        omega (arith, length-content _ r.up_valid, r.up_valid.fits, r.up_size),
        omega (arith, length-content _ r.down_valid, r.down_valid.fits, r.down_size),
      )

  drained : (xs ys zs : List ℕ) → xs ≡ ys ++ zs → zs ≡ [] → ys ≡ xs
  drained xs ys zs e n = rw (e, n) (sym (append-nil ys))

  -- On a lawful kernel, for a session on two distinct descriptors that the trace has neither read
  -- nor written, and a buffer size below 2 ^ 64: after any events, either
  -- `upstreamWriteShutdown_` is not set and the session has not called shutdown() on the
  -- backend's descriptor, or it is set, the session has called shutdown() on it just once, the
  -- client's end has been seen and the bytes written to the backend are all the bytes read from
  -- the client.
  pub upstream_shut_after_all :
      ((lived.session.upstream_write_shutdown ≡ false)
        × (shuts_of upstream lived.world.trace ≡ shuts_of upstream w.trace))
      ⊎ ((lived.session.upstream_write_shutdown ≡ true)
          × (shuts_of upstream lived.world.trace ≡ suc (shuts_of upstream w.trace))
          × (lived.session.client_read_closed ≡ true)
          × (bytes_written upstream lived.world.trace ≡ bytes_read client lived.world.trace))
  upstream_shut_after_all =
      let r = lived-Relay in
      let told = rw r.upstream_is at r.up_told in
      elim (Bool-cases lived.session.upstream_write_shutdown) [
        | inl shut ↦
            let s = r.up_shut shut in
            inr (shut, rw shut at told, s.0, drained _ _ _ relay_in_order.0 s.1)
        | inr not_yet ↦ inl (not_yet, rw not_yet at told)
      ]

  -- On a lawful kernel, for a session on two distinct descriptors that the trace has neither read
  -- nor written, and a buffer size below 2 ^ 64: after any events, either `clientWriteShutdown_`
  -- is not set and the session has not called shutdown() on the client's descriptor, or it is
  -- set, the session has called shutdown() on it just once, the backend's end has been seen and
  -- the bytes written to the client are all the bytes read from the backend.
  pub client_shut_after_all :
      ((lived.session.client_write_shutdown ≡ false)
        × (shuts_of client lived.world.trace ≡ shuts_of client w.trace))
      ⊎ ((lived.session.client_write_shutdown ≡ true)
          × (shuts_of client lived.world.trace ≡ suc (shuts_of client w.trace))
          × (lived.session.upstream_read_closed ≡ true)
          × (bytes_written client lived.world.trace ≡ bytes_read upstream lived.world.trace))
  client_shut_after_all =
      let r = lived-Relay in
      let told = rw r.client_is at r.down_told in
      elim (Bool-cases lived.session.client_write_shutdown) [
        | inl shut ↦
            let s = r.down_shut shut in
            inr (shut, rw shut at told, s.0, drained _ _ _ relay_in_order.1 s.1)
        | inr not_yet ↦ inl (not_yet, rw not_yet at told)
      ]
