-- ===== src/Buffer/Tests.antt =====
-- Runs and instances for include/fluxgate/ByteBuffer.h.
use flux_gate.Base.{◌≡◌, refl, List, [], ◌∷◌, ◌≤◌, arith, add64, sub64}
use flux_gate.Buffer.{new_buffer, make_writable, consume, fill, has_written}
use flux_gate.Buffer.Content.{IsValid, content}
use flux_gate.Buffer.Queue.{Call, receives, sends, compacts, call, run_calls, run_calls-Refines}

abbrev calls : List Call
calls = receives (1 ∷ 2 ∷ 3 ∷ []) ∷ sends 2 ∷ compacts ∷ receives (4 ∷ []) ∷ []

run_calls-content : content (run_calls (new_buffer 4) calls) ≡ 3 ∷ 4 ∷ []
unfolding run_calls call new_buffer fill has_written consume make_writable add64 sub64
run_calls-content = refl

run_calls-Refines_example :
    (content (run_calls (new_buffer 4) calls) ≡ 3 ∷ 4 ∷ [])
    × (2 ≤ 4)
    × IsValid (run_calls (new_buffer 4) calls)
unfolding call new_buffer fill has_written consume make_writable add64 sub64
run_calls-Refines_example =
    run_calls-Refines 4 calls (omega arith) (omega arith, (omega arith, (tt, (omega arith, tt))))
