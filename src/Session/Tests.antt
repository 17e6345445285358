-- ===== src/Session/Tests.antt =====
-- A kernel to run src/ProxySession.cpp on: a queue of bytes for each descriptor, a number of
-- interruptions, and room for all that is sent.
mod Runs
mod Loops
use flux_gate.Base.{
  ℕ, zero, suc, ◌+◌, ◌<◌, ◌≤◌, ◌≡◌, ◌≢◌, ◌⊎◌, refl, Bool, true, false, List, [], ◌∷◌, ◌++◌, Option,
  none, some, length, take, drop, min, ◌==◌, if◌then◌else◌, arith, length-take, Bool-cases, inl,
  inr, add64, sub64,
}
use flux_gate.Buffer.{
  ByteBuffer, new_buffer, fill, has_written, consume, make_writable, is_empty, writable_bytes,
  readable_bytes, read_data,
}
use flux_gate.Buffer.Content.{IsValid, capacity, content}
use flux_gate.Backend.{record_connect_success, record_connect_failure}
use flux_gate.Pool.{Pool, update_backend}
use flux_gate.Metrics.{
  new_metrics, add_client_to_backend, add_backend_to_client, on_connect_failure,
}
use flux_gate.Io.{
  eintr, eagain, RecvReply, received, SendReply, sent, RecvFits, SendFits, Kernel, IsKernel, World,
  bytes_read, bytes_written,
}
use flux_gate.Session.Loops.{read_into, write_from, read_loop, write_loop, fuel_for, Transfer}
use flux_gate.Session.State.{Events, Session, Live, new_session, client_events, upstream_events}
use flux_gate.Session.Loops.{read_pass, write_pass}
use flux_gate.Session.Stages.{
  connect_stage, error_stage, transfer_stage, client_read, client_write, upstream_read,
  upstream_write,
}
use flux_gate.Session.Handler.{handle_event, run_events, finish_stage}
use flux_gate.Buffer.Content.{new_buffer-IsValid}
use flux_gate.Session.Loops.Reading.{ReadFrom, read_into-ReadFrom}
use flux_gate.Session.Loops.Writing.{WroteTo, write_from-WroteTo}
use flux_gate.Session.Relay.{Shape, Relay}
use flux_gate.Session.Relay.Runs.{
  born-Relay, run_events-Relay, relay_in_order, upstream_shut_after_all, client_shut_after_all,
}
use flux_gate.Session.Hangup.{hangup_truncates}
use flux_gate.Session.Interest.{no_stall_client, no_stall_upstream}

-- Descriptor 3 is the client, 4 the backend.
record Script : Type 0 where
  client_bytes : List ℕ
  upstream_bytes : List ℕ
  interruptions : ℕ
  socket_error : ℕ

-- A chunk of a queue, or EAGAIN where nothing is left.
chunk : ℕ → List ℕ → RecvReply
chunk room [] = RecvReply.failed eagain
chunk room (x ∷ xs) = received (take room (x ∷ xs))

take_bytes : Script → ℕ → ℕ → RecvReply × Script
unfolding chunk
take_bytes s fd room =
    if fd == 3
    then (chunk room s.client_bytes, record s { client_bytes = drop room s.client_bytes })
    else (chunk room s.upstream_bytes, record s { upstream_bytes = drop room s.upstream_bytes })

recv_script : ℕ → Script → ℕ → ℕ → RecvReply × Script
unfolding take_bytes
recv_script zero s fd room = take_bytes s fd room
recv_script (suc n) s fd room = (RecvReply.failed eintr, record s { interruptions = n })

abbrev script : Kernel Script
script = record {
  recv = λ s. recv_script s.interruptions s;
  send = λ s fd xs. (sent (length xs), s);
  so_error = λ s fd. (some s.socket_error, s);
  shut_write = λ s fd. s;
  now = λ s. 5;
  signals = λ s. s.interruptions;
}

chunk_fits :
    (s t : Script) (room : ℕ) (xs : List ℕ)
    → t.interruptions ≡ s.interruptions
    → RecvFits script s room (chunk room xs, t)
unfolding chunk
chunk_fits s t room [] e = (omega arith, λ q. absurd (omega arith))
chunk_fits s t room (x ∷ xs) e = (omega (arith, length-take room (x ∷ xs)), omega arith)

recv_script_fits :
    (n : ℕ) (s : Script) (fd room : ℕ)
    → s.interruptions ≡ n
    → RecvFits script s room (recv_script n s fd room)
recv_script_fits zero s fd room e =
    unfold recv_script in
    (elim (Bool-cases (fd == 3)) [
      | inl client ↦ rw client (chunk_fits s _ room s.client_bytes refl)
      | inr other ↦ rw other (chunk_fits s _ room s.upstream_bytes refl)
    ])
recv_script_fits (suc n) s fd room e = unfold recv_script in (omega arith, λ q. omega arith)

script-IsKernel : IsKernel script
script-IsKernel = record {
  recv_fits = λ s fd room. recv_script_fits s.interruptions s fd room refl;
  send_fits = λ s fd xs. (omega arith, omega arith);
}

abbrev world : World Script
world = record {
  kernel = record {
    client_bytes = 10 ∷ 11 ∷ 12 ∷ 13 ∷ 14 ∷ [];
    upstream_bytes = 20 ∷ 21 ∷ [];
    interruptions = 1;
    socket_error = 0;
  };
  pool = record { backends = []; tie_breaker = 0 };
  metrics = new_metrics;
  trace = [];
}

abbrev quiet : Events
quiet = record {
  readable = false;
  writable = false;
  failing = false;
  hangup = false;
  read_hangup = false;
}
