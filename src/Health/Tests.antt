-- ===== src/Health/Tests.antt =====
-- Runs and instances for src/HealthChecker.cpp.
use mathlib.Core.Option
use flux_gate.Base.{
  ◌≡◌, ◌⊎◌, map, refl, Bool, true, false, List, [], ◌∷◌, some, replicate, arith, add64,
}
use flux_gate.Backend.{Backend}
use flux_gate.Health.{Thresholds, Round, new_probe_state, probe, run_checker}
use flux_gate.Health.Hysteresis.{probe_all, probe_all_stays_up, probe_all_down, probe_all_up}
use flux_gate.Net.Tests.{host}
use flux_gate.Health.Life.{Checker, probing, no_thread, Step, joins, passes, run_steps, stop, join}
use flux_gate.Health.Life.Stopped.{due}
use flux_gate.Health.Life.Joined.{stop-steady}
use flux_gate.Health.Rounds.{view, view-run_checker}

abbrev limits : Thresholds
limits = record { failure_threshold = 3; success_threshold = 2 }

abbrev flapping : List Bool
flapping = false ∷ false ∷ true ∷ false ∷ false ∷ []

probe_all-flapping : (probe_all limits (false ∷ flapping) (new_probe_state, true)).1 ≡ false
unfolding probe_all probe add64
probe_all-flapping = refl

probe_all_stays_up_example : (probe_all limits flapping (new_probe_state, true)).1 ≡ true
probe_all_stays_up_example =
    probe_all_stays_up limits flapping new_probe_state (omega arith) (omega arith)

probe_all_down_example : (probe_all limits (replicate 3 false) (new_probe_state, true)).1 ≡ false
probe_all_down_example = probe_all_down limits 2 new_probe_state true (omega arith) (omega arith)

probe_all_up_example : (probe_all limits (replicate 2 true) (new_probe_state, false)).1 ≡ true
probe_all_up_example = probe_all_up limits 1 new_probe_state false (omega arith) (omega arith)

abbrev server : Backend
server = record {
  config = record { name = []; host = []; port = 80; weight = 1 };
  endpoint = record { address = []; text = [] };
  healthy = true;
  active_connections = 0;
  total_connections = 0;
  failed_connections = 0;
}

abbrev rounds : List Round
rounds =
    record { running_at_test = true; running_after_wait = true; reach = λ i. false }
    ∷ record { running_at_test = true; running_after_wait = false; reach = λ i. true }
    ∷ []

view-run_checker_example :
    view (run_checker limits (λ i. false) rounds (server ∷ [], (λ i. new_probe_state))) 0
    ≡ some (probe_all limits (false ∷ false ∷ []) (new_probe_state, true))
view-run_checker_example =
    view-run_checker limits 0 (λ i. false) rounds (server ∷ [], (λ i. new_probe_state))

-- A checker in a round that has reached the second backend.
abbrev checker : Checker
checker = record {
  running = true;
  thread = probing 1;
  terminated = false;
  health = (server ∷ server ∷ [], λ i. new_probe_state);
}

-- The thread makes the probe that is due; `join` waits.
abbrev last_steps : List Step
last_steps = joins ∷ passes false ∷ []

abbrev more : List Bool
more = false ∷ false ∷ false ∷ false ∷ []

stop-steady_example :
    ((view (run_steps limits last_steps (stop checker)).health 1 ≡ view checker.health 1)
      ⊎ ((due checker.thread 1 ≡ true)
          × ((a : Bool) × (view (run_steps limits last_steps (stop checker)).health 1
                ≡ Option.map (probe limits a) (view checker.health 1)))))
    × ((join
          (run_steps limits (map passes more) (run_steps limits last_steps (stop checker)))).thread
        ≡ no_thread)
stop-steady_example = stop-steady limits last_steps checker 1 more tt (omega arith)
