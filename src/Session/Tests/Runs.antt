-- ===== src/Session/Tests/Runs.antt =====
-- Runs of src/ProxySession.cpp on the kernel of `Session.Tests`.
use flux_gate.Base.{
  ℕ, ◌≤◌, ◌≡◌, ◌⊎◌, refl, true, false, List, [], ◌∷◌, ◌++◌, some, length, arith, add64, sub64,
}
use flux_gate.Buffer.{new_buffer, fill, has_written, consume, make_writable, is_empty, read_data}
use flux_gate.Buffer.Content.{capacity, content}
use flux_gate.Backend.{Backend, record_connect_failure}
use flux_gate.Pool.{update_backend}
use flux_gate.Metrics.{on_connect_failure}
use flux_gate.Io.{bytes_read, bytes_written, shuts_of}
use flux_gate.Session.Loops.{read_into, write_from, read_loop, write_loop}
use flux_gate.Session.State.{Events, Live, new_session, client_events, upstream_events}
use flux_gate.Session.Loops.{read_pass, write_pass}
use flux_gate.Session.Stages.{
  connect_stage, error_stage, transfer_stage, client_read, client_write, upstream_read,
  upstream_write,
}
use flux_gate.Session.Handler.{handle_event, run_events, finish_stage}
use flux_gate.Session.Relay.{Shape, Relay}
use flux_gate.Session.Relay.Runs.{
  born-Relay, run_events-Relay, relay_in_order, upstream_shut_after_all, client_shut_after_all,
}
use flux_gate.Session.Hangup.{hangup_truncates}
use flux_gate.Session.Interest.{no_stall_client, no_stall_upstream}
use flux_gate.Session.Tests.{script, script-IsKernel, world, quiet, Script, recv_script}

abbrev events : List (ℕ × Events)
events =
    (3, record quiet { readable = true })
    ∷ (4, record quiet { writable = true })
    ∷ (4, record quiet { readable = true })
    ∷ (3, record quiet { writable = true })
    ∷ []

-- A session with buffers of four bytes: the client sends five.
abbrev born : Live Script
born = new_session script 1 3 4 true (some 0) 4 [] world

abbrev lived : Live Script
lived = run_events script events born

lived_bytes :
    (bytes_read 3 lived.world.trace ≡ 10 ∷ 11 ∷ 12 ∷ 13 ∷ [])
    × (bytes_written 4 lived.world.trace ≡ 10 ∷ 11 ∷ 12 ∷ 13 ∷ [])
    × (bytes_written 3 lived.world.trace ≡ 20 ∷ 21 ∷ [])
unfolding run_events handle_event new_session recv_script read_into write_from read_loop write_loop
    add64 sub64 new_buffer fill has_written consume make_writable is_empty read_data connect_stage
    error_stage transfer_stage client_read client_write upstream_read upstream_write read_pass
    write_pass finish_stage
lived_bytes = (refl, refl, refl)

relay_in_order_example :
    (bytes_read 3 lived.world.trace
      ≡ bytes_written 4 lived.world.trace ++ content lived.session.client_to_upstream)
    × (bytes_read 4 lived.world.trace
        ≡ bytes_written 3 lived.world.trace ++ content lived.session.upstream_to_client)
    × (length (content lived.session.client_to_upstream) ≤ 4)
    × (length (content lived.session.upstream_to_client) ≤ 4)
relay_in_order_example =
    relay_in_order script script-IsKernel 1 3 4 4 true (some 0) [] world events (omega arith)
      (omega arith) (refl, refl) (refl, refl)

-- The client hangs up after five bytes, read in two rounds.
abbrev client_ends : List (ℕ × Events)
client_ends =
    (3, record quiet { readable = true })
    ∷ (4, record quiet { writable = true })
    ∷ (3, record quiet { readable = true; read_hangup = true })
    ∷ (4, record quiet { writable = true })
    ∷ (3, record quiet { read_hangup = true })
    ∷ []

client_ends_shuts : (run_events script client_ends born).session.upstream_write_shutdown ≡ true
unfolding run_events handle_event new_session recv_script read_into write_from read_loop write_loop
    add64 sub64 new_buffer fill has_written consume make_writable is_empty read_data connect_stage
    error_stage transfer_stage client_read client_write upstream_read upstream_write read_pass
    write_pass finish_stage
client_ends_shuts = refl

upstream_shut_after_all_example :
    (((run_events script client_ends born).session.upstream_write_shutdown ≡ false)
      × (shuts_of 4 (run_events script client_ends born).world.trace ≡ 0))
    ⊎ (((run_events script client_ends born).session.upstream_write_shutdown ≡ true)
        × (shuts_of 4 (run_events script client_ends born).world.trace ≡ 1)
        × ((run_events script client_ends born).session.client_read_closed ≡ true)
        × (bytes_written 4 (run_events script client_ends born).world.trace
            ≡ bytes_read 3 (run_events script client_ends born).world.trace))
upstream_shut_after_all_example =
    upstream_shut_after_all script script-IsKernel 1 3 4 4 true (some 0) [] world client_ends
      (omega arith) (omega arith) (refl, refl) (refl, refl)

-- The backend hangs up after two bytes.
abbrev upstream_ends : List (ℕ × Events)
upstream_ends =
    (4, record quiet { writable = true })
    ∷ (4, record quiet { readable = true })
    ∷ (3, record quiet { writable = true })
    ∷ (4, record quiet { read_hangup = true })
    ∷ []

upstream_ends_shuts : (run_events script upstream_ends born).session.client_write_shutdown ≡ true
unfolding run_events handle_event new_session recv_script read_into write_from read_loop write_loop
    add64 sub64 new_buffer fill has_written consume make_writable is_empty read_data connect_stage
    error_stage transfer_stage client_read client_write upstream_read upstream_write read_pass
    write_pass finish_stage
upstream_ends_shuts = refl

client_shut_after_all_example :
    (((run_events script upstream_ends born).session.client_write_shutdown ≡ false)
      × (shuts_of 3 (run_events script upstream_ends born).world.trace ≡ 0))
    ⊎ (((run_events script upstream_ends born).session.client_write_shutdown ≡ true)
        × (shuts_of 3 (run_events script upstream_ends born).world.trace ≡ 1)
        × ((run_events script upstream_ends born).session.upstream_read_closed ≡ true)
        × (bytes_written 3 (run_events script upstream_ends born).world.trace
            ≡ bytes_read 4 (run_events script upstream_ends born).world.trace))
client_shut_after_all_example =
    client_shut_after_all script script-IsKernel 1 3 4 4 true (some 0) [] world upstream_ends
      (omega arith) (omega arith) (refl, refl) (refl, refl)

abbrev shape : Shape
shape = record { client_fd = 3; upstream_fd = 4; size = 4; client_shuts = 0; upstream_shuts = 0 }

born_relays : Relay shape born
born_relays =
    born-Relay script script-IsKernel 1 3 4 4 true (some 0) [] world events (omega arith)
      (omega arith) (refl, refl) (refl, refl)

-- The buffer is full after the first read, with one byte of the client's left in the kernel.
abbrev filled : Live Script
filled = run_events script ((3, record quiet { readable = true }) ∷ []) born

filled_relays : Relay shape filled
filled_relays = run_events-Relay script script-IsKernel shape _ born born_relays

filled_state :
    (filled.session.closing ≡ false)
    × (filled.session.client_read_closed ≡ false)
    × (length (content filled.session.client_to_upstream)
        ≡ capacity filled.session.client_to_upstream)
    × (filled.session.client_fd ≡ 3)
    × (bytes_read 3 filled.world.trace ≡ 10 ∷ 11 ∷ 12 ∷ 13 ∷ [])
    × (filled.world.kernel.client_bytes ≡ 14 ∷ [])
unfolding run_events handle_event new_session recv_script read_into write_from read_loop write_loop
    add64 sub64 new_buffer fill has_written consume make_writable is_empty read_data connect_stage
    error_stage transfer_stage client_read client_write upstream_read upstream_write read_pass
    write_pass finish_stage
filled_state = (refl, refl, refl, refl, refl, refl)

abbrev hung : Live Script
hung =
    run_events script client_ends
      (handle_event script filled.session.client_fd (record quiet { read_hangup = true }) filled).1

hangup_truncates_example :
    (hung.session.client_read_closed ≡ true)
    × (bytes_read hung.session.client_fd hung.world.trace
        ≡ bytes_read filled.session.client_fd filled.world.trace)
hangup_truncates_example =
    hangup_truncates script script-IsKernel shape filled (record quiet { read_hangup = true })
      filled_relays filled_state.0 filled_state.1 filled_state.2 refl refl client_ends

no_stall_client_example :
    ((client_events filled.session).readable ≡ true)
    ⊎ ((upstream_events filled.session).writable ≡ true)
no_stall_client_example = no_stall_client shape filled filled_relays (omega arith) filled_state.1

upstream_open :
    (lived.session.upstream_read_closed ≡ false) × (lived.session.upstream_connecting ≡ false)
unfolding run_events handle_event new_session recv_script read_into write_from read_loop write_loop
    add64 sub64 new_buffer fill has_written consume make_writable is_empty read_data connect_stage
    error_stage transfer_stage client_read client_write upstream_read upstream_write read_pass
    write_pass finish_stage
upstream_open = (refl, refl)

no_stall_upstream_example :
    ((upstream_events lived.session).readable ≡ true)
    ⊎ ((client_events lived.session).writable ≡ true)
no_stall_upstream_example =
    no_stall_upstream shape lived
      (run_events-Relay script script-IsKernel shape events born born_relays) (omega arith)
      upstream_open.0 upstream_open.1

-- Two backends; the connect to the second is refused (ECONNREFUSED), and a further event comes.
abbrev server : Backend
server = record {
  config = record { name = []; host = []; port = 80; weight = 1 };
  endpoint = record { address = []; text = [] };
  healthy = true;
  active_connections = 1;
  total_connections = 7;
  failed_connections = 2;
}

abbrev refused : Live Script
refused = new_session script 1 3 4 true (some 1) 4 [] (record world {
  kernel = record (world.kernel) { socket_error = 111 };
  pool = record { backends = server ∷ server ∷ []; tie_breaker = 0 };
})

abbrev refusal : List (ℕ × Events)
refusal =
    (4, record quiet { read_hangup = true })
    ∷ (4, record quiet { failing = true })
    ∷ (4, record quiet { failing = true })
    ∷ []

refusal_counts :
    ((run_events script refusal refused).world.metrics.connect_failures ≡ 1)
    × ((run_events script refusal refused).world.pool.backends
        ≡ server ∷ record server { failed_connections = 3 } ∷ [])
unfolding run_events handle_event new_session connect_stage record_connect_failure
    on_connect_failure update_backend add64
refusal_counts = (refl, refl)
