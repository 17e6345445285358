-- ===== src/Worker/Reactor/Created.antt =====
-- Where `Worker::createSession` (src/Worker.cpp) leaves the descriptors that it is given.
use flux_gate.Base.{
  List, ℕ, suc, ◌+◌, ◌<◌, ◌≡◌, Bool, true, false, ◌∷◌, none, some, add64, arith, word_mod,
}
use flux_gate.Buffer.Content.{IsValid, new_buffer-IsValid}
use flux_gate.Pool.{Pool, Lease, acquire}
use flux_gate.Io.{Kernel}
use flux_gate.Session.State.{Session, new_session}
use flux_gate.Worker.Queue.{AcceptedClient, same_fd}
use flux_gate.Worker.Interest.{Interest}
use flux_gate.Worker.Sessions.{
  Worker, ConnectReply, destroy_session, publish_registered, publish_session, connect_session,
  lease_session, create_session,
}
use flux_gate.Worker.Books.{AllBelow, erase_unknown, create_session-IsBooked}
use flux_gate.Worker.Reactor.Served.{occurs, owns, holds, AllValid, IsServed}

-- The buffers are valid and no descriptor is lost, but for `f ↦ spare f` that are at hand.
abbrev IsHeld : {S : Type 0} → (ℕ → ℕ) → Worker S → Type 0
IsHeld spare w =
    AllValid w.sessions
    × ((f : ℕ) → spare f + (holds f w.sessions + occurs f w.closed) ≡ occurs f w.taken)

module _ {S : Type 0} (k : Kernel S) where
  publish_registered-IsHeld :
      (r : Bool × Interest) (s : Session) (w : Worker S)
      → IsValid s.client_to_upstream × IsValid s.upstream_to_client
      → AllBelow s.id w.sessions
      → IsHeld (λ f. owns f s) w
      → IsHeld (λ f. 0) (publish_registered k r s w)
  unfolding publish_registered destroy_session
  publish_registered-IsHeld (false, m) s w v below h = (h.0, λ f. omega (arith, h.1 f))
  publish_registered-IsHeld (true, m) s w v below h =
      rw (erase_unknown s.id w.sessions below) ((v, h.0), λ f. omega (arith, h.1 f))

  publish_session-IsHeld :
      (registered : Bool × Bool) (s : Session) (w : Worker S)
      → IsValid s.client_to_upstream × IsValid s.upstream_to_client
      → AllBelow s.id w.sessions
      → IsHeld (λ f. owns f s) w
      → IsHeld (λ f. 0) (publish_session k registered s w)
  unfolding publish_session
  publish_session-IsHeld registered s w = publish_registered-IsHeld _ s w

  module _ (size : ℕ) (fits : size < word_mod) (client : AcceptedClient)
      (registered : Bool × Bool) where
    connect_session-IsHeld :
        (i : ℕ) (reply : ConnectReply) (w : Worker S)
        → AllBelow w.next_session_id w.sessions
        → IsHeld (λ f. same_fd f client.fd) w
        → IsHeld (λ f. 0) (connect_session k size client i reply registered w)
    unfolding connect_session new_session
    connect_session-IsHeld i none w below h = (h.0, λ f. omega (arith, h.1 f))
    connect_session-IsHeld i (some (fd, connecting)) w below h =
        let v = new_buffer-IsValid size fits in
        let live =
          new_session k w.next_session_id client.fd fd connecting (some i) size client.address
            w.world in
        publish_session-IsHeld registered live.session
          (record w {
            next_session_id = add64 w.next_session_id 1;
            taken = fd ∷ w.taken;
            world = live.world;
          })
          (v, v) below (h.0, λ f. omega (arith, h.1 f))

    lease_session-IsHeld :
        (reply : ConnectReply) (w : Worker S) (o : Pool × Lease)
        → AllBelow w.next_session_id w.sessions
        → IsHeld (λ f. same_fd f client.fd) w
        → IsHeld (λ f. 0) (lease_session k size client reply registered w o)
    unfolding lease_session
    lease_session-IsHeld reply w (p, none) below h = (h.0, λ f. omega (arith, h.1 f))
    lease_session-IsHeld reply w (p, some i) below h = connect_session-IsHeld i reply _ below h

    module _ {others : List Lease} where
      create_session-IsHeld :
          (n : ℕ) (reply : ConnectReply) (w : Worker S)
          → IsServed others n w
          → IsHeld (λ f. 0) (create_session k size client reply registered w)
      unfolding create_session
      create_session-IsHeld n reply w r =
          lease_session-IsHeld reply (record w { taken = client.fd ∷ w.taken })
            (acquire w.world.pool) r.booked.known (r.valid, λ f. omega (arith, r.kept f))

      pub create_session-IsServed :
          (n : ℕ) (reply : ConnectReply) (w : Worker S)
          → suc n < 1_000_000_000_000
          → IsServed others n w
          → IsServed others (suc n) (create_session k size client reply registered w)
      create_session-IsServed n reply w small r =
          let (valid, kept) = create_session-IsHeld n reply w r in
          record {
            booked = create_session-IsBooked k n small size client registered reply w r.booked;
            valid = valid;
            kept = λ f. omega (arith, kept f);
          }
