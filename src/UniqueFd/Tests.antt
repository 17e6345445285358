-- ===== src/UniqueFd/Tests.antt =====
-- Runs of include/fluxgate/UniqueFd.h.
use flux_gate.Base.{◌+◌, ◌≡◌, refl, List, [], ◌∷◌, some}
use flux_gate.Pool.System.{count}
use flux_gate.UniqueFd.{Owners, Call, adopts, releases, moves, assigns, destroys, run_calls}
use flux_gate.UniqueFd.Ledger.{times_closed, all_handed, run_calls-held}

abbrev nobody : Owners
nobody = record { alive = []; closed = []; released = [] }

-- Descriptor 5 is moved, the new owner takes 6 by assignment, and both owners end.
abbrev calls : List Call
calls =
    adopts (some 5)
    ∷ moves 0
    ∷ adopts (some 6)
    ∷ assigns 1 0
    ∷ releases 1
    ∷ destroys 1
    ∷ destroys 0
    ∷ []

calls_close : (run_calls calls nobody).closed ≡ 5 ∷ []
unfolding run_calls
calls_close = refl

run_calls-held_example :
    count 5 (run_calls calls nobody).alive
      + times_closed 5 (run_calls calls nobody).closed
      + count 5 (run_calls calls nobody).released
    ≡ count 5 nobody.alive
      + times_closed 5 nobody.closed
      + count 5 nobody.released
      + all_handed 5 nobody calls
run_calls-held_example = run_calls-held 5 calls nobody
