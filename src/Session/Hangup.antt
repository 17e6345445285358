-- ===== src/Session/Hangup.antt =====
-- `ProxySession::handleEvent` (src/ProxySession.cpp) at a hang-up of the client that meets a full
-- buffer.
use flux_gate.Base.{
  ℕ, suc, ◌≡◌, refl, ap, Bool, true, false, not, ◌&&◌, List, some, length, ◌==◌, ok, arith, ==_iff,
  ==_refl,
}
use flux_gate.Buffer.{writable_bytes, make_writable}
use flux_gate.Buffer.Content.{IsValid, capacity, content, make_writable_room}
use flux_gate.Io.{Kernel, IsKernel, bytes_read}
use flux_gate.Session.Loops.{
  would_block, Transfer, stalled, done, or_error, read_pass, read_loop, read_into,
}
use flux_gate.Session.State.{Events, Live}
use flux_gate.Session.Stages.{
  client_transfer, after_client_read, wants_read, connect_stage, error_stage, client_read,
  client_write, transfer_stage,
}
use flux_gate.Session.Handler.{finish_stage, handle_stages, handle_event, run_events}
use flux_gate.Session.Relay.{Shape, Relay}
use flux_gate.Session.Relay.Steps.{client_read_stage}
use flux_gate.Session.Relay.Event.{handle_event-Relay, transfer_stage-Relay}
use flux_gate.Session.Ended.{
  IsEnded, StageEnded, StageEnded-bind, client_write-IsEnded, finish_stage-IsEnded,
  returned-IsEnded, run_events-IsEnded,
}

-- A full buffer is not read into: `recv` is not called.
module _ {S : Type 0} (k : Kernel S) (fd : ℕ) (side : Bool) (t : Transfer S) (v : IsValid t.buffer)
    (full : length (content t.buffer) ≡ capacity t.buffer) where
  abbrev compacted : Transfer S
  compacted = record t { buffer = make_writable t.buffer }

  read_pass_full : (p : Bool) → read_pass k fd side p t ≡ done (stalled p) compacted
  unfolding read_pass
  read_pass_full p =
      let e : (writable_bytes (make_writable t.buffer) == 0) ≡ true =
        (==_iff _ _).1 ((make_writable_room t.buffer v).1 full) in
      rw e

  read_loop_full :
      (fuel : ℕ) (p : Bool) → read_loop k fd (suc fuel) side p t ≡ some (stalled p, compacted)
  unfolding read_loop
  read_loop_full fuel p = rw (read_pass_full p, read_loop)

  read_into_full : read_into k fd side t ≡ (would_block, compacted)
  unfolding read_into
  read_into_full = ap (or_error t) (read_loop_full _ false)

module _ {S : Type 0} (k : Kernel S) (law : IsKernel k) (shape : Shape) (l : Live S) (ev : Events)
    (relay : Relay shape l) (live : l.session.closing ≡ false)
    (unended : l.session.client_read_closed ≡ false)
    (full : length (content l.session.client_to_upstream) ≡ capacity l.session.client_to_upstream)
    (sound : ev.failing ≡ false) (hung : ev.read_hangup ≡ true) where
  abbrev so_far : List ℕ
  so_far = bytes_read l.session.client_fd l.world.trace

  -- The client is taken as ended, with nothing read.
  client_read_ends : StageEnded so_far (client_read k ev l)
  unfolding client_read after_client_read
  client_read_ends =
      let e = read_into_full k l.session.client_fd true (client_transfer l) relay.up_valid full in
      let go : (not l.session.client_read_closed && wants_read ev) ≡ true = ground arith in
      rw (go, e, hung) (record { ended = refl; still = refl })

  transfer_ends : StageEnded so_far (transfer_stage k l.session.client_fd ev l)
  unfolding transfer_stage
  transfer_ends = rw (==_refl l.session.client_fd) (
      StageEnded-bind so_far shape (client_read k ev l) (client_write k ev) client_read_ends
        (client_read_stage k law shape ev l relay) (client_write-IsEnded k law shape so_far ev))

  connect_passes : connect_stage k l.session.client_fd ev l ≡ ok l
  unfolding connect_stage
  connect_passes = ground (arith, ==_iff l.session.client_fd l.session.upstream_fd, relay.apart)

  error_passes : error_stage k l.session.client_fd ev l ≡ ok l
  unfolding error_stage
  error_passes = rw sound

  stages_end : StageEnded so_far (handle_stages k l.session.client_fd ev l)
  unfolding handle_stages
  stages_end =
      rw (connect_passes, error_passes)
        (StageEnded-bind so_far shape (transfer_stage k l.session.client_fd ev l) (finish_stage k)
          transfer_ends (transfer_stage-Relay k law shape l.session.client_fd ev l relay)
          (λ o r h. finish_stage-IsEnded k law shape so_far o h))

  event_ends : IsEnded so_far (handle_event k l.session.client_fd ev l).1
  unfolding handle_event
  event_ends = simp live (returned-IsEnded k law shape so_far _ stages_end)

  -- In a session that keeps the relay's invariant, open, with a full client buffer and the
  -- client's end not seen, an event of the client with EPOLLRDHUP and without EPOLLERR marks the
  -- client's end, and whatever events follow no byte more is read from the client.
  pub hangup_truncates :
      (es : List (ℕ × Events))
      → let l' = run_events k es (handle_event k l.session.client_fd ev l).1 in
        (l'.session.client_read_closed ≡ true)
        × (bytes_read l'.session.client_fd l'.world.trace
            ≡ bytes_read l.session.client_fd l.world.trace)
  hangup_truncates es =
      let h =
        run_events-IsEnded k law shape so_far es _
          (handle_event-Relay k law shape l.session.client_fd ev l relay) event_ends in
      (h.ended, h.still)
