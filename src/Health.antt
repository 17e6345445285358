-- ===== src/Health.antt =====
-- include/fluxgate/HealthChecker.h and src/HealthChecker.cpp: the health state of each backend,
-- with hysteresis. The result of each TCP probe (`waitForConnect`) is an input; the map from
-- backends to probe states is a function of the backend's index, which is what the key, the
-- backend's address, stands for. The waits of the thread are a schedule.
pub mod Hysteresis
pub mod Rounds
pub mod Probes
pub mod Life
pub mod Tests
use flux_gate.Base.{
  ℕ, zero, suc, Bool, true, false, not, ◌&&◌, List, [], ◌∷◌, leb, ◌==◌, if◌then◌else◌, add64,
}
use flux_gate.Backend.{Backend, set_healthy}

pub record ProbeState : Type 0 where
  pub consecutive_failures : ℕ
  pub consecutive_successes : ℕ

-- `ProbeState::ProbeState`.
abbrev pub new_probe_state : ProbeState
new_probe_state = record { consecutive_failures = 0; consecutive_successes = 0 }

pub record Thresholds : Type 0 where
  pub failure_threshold : ℕ
  pub success_threshold : ℕ

-- The part of `checkOnce` that one probe result decides: the counters and the health of a backend.
unfoldable pub probe : Thresholds → Bool → ProbeState × Bool → ProbeState × Bool
probe t reachable (s, previous) =
    if reachable
    then (let n : ℕ = add64 s.consecutive_successes 1 in
        (
          record { consecutive_failures = 0; consecutive_successes = n },
          (if not previous && leb t.success_threshold n then true else previous),
        ))
    else (let n : ℕ = add64 s.consecutive_failures 1 in
        (
          record { consecutive_failures = n; consecutive_successes = 0 },
          (if previous && leb t.failure_threshold n then false else previous),
        ))

abbrev pub ProbeStates : Type 0
ProbeStates = ℕ → ProbeState

abbrev pub store : ProbeStates → ℕ → ProbeState → ProbeStates
store states i s j = if j == i then s else states j

-- The loop of `HealthChecker::checkOnce` over the backends from index `i` on.
unfoldable pub check_from :
    Thresholds → (ℕ → Bool) → ℕ → List Backend → ProbeStates → List Backend × ProbeStates
unfolding probe set_healthy
check_from t reach i [] states = ([], states)
check_from t reach i (b ∷ bs) states =
    let (s, current) = probe t (reach i) (states i, b.healthy) in
    let (rest, states') = check_from t reach (suc i) bs (store states i s) in
    (set_healthy b current ∷ rest, states')

unfoldable pub check_once :
    Thresholds → (ℕ → Bool) → List Backend × ProbeStates → List Backend × ProbeStates
unfolding check_from
check_once t reach (bs, states) = check_from t reach 0 bs states

-- One pass of the loop in `HealthChecker::run`: `running_` at the loop's test and after the wait,
-- and the results of the probes that follow.
pub record Round : Type 0 where
  pub running_at_test : Bool
  pub running_after_wait : Bool
  pub reach : ℕ → Bool

run_rounds : Thresholds → List Round → List Backend × ProbeStates → List Backend × ProbeStates
unfolding check_once
run_rounds t [] s = s
run_rounds t (r ∷ rs) s =
    let rest = run_rounds t rs (check_once t r.reach s) in
    if not r.running_at_test then s else if not r.running_after_wait then s else rest

-- `HealthChecker::run`: probe at once, then at each interval until stopped.
unfoldable pub run_checker :
    Thresholds → (ℕ → Bool) → List Round → List Backend × ProbeStates → List Backend × ProbeStates
unfolding run_rounds
run_checker t reach rs s = run_rounds t rs (check_once t reach s)
