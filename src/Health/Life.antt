-- ===== src/Health/Life.antt =====
-- `start`, `stop`, `join` and the thread of `run` in src/HealthChecker.cpp. One step is one call of
-- the main thread, or of the thread one probe of a round or one test of `running_`, so that `stop`
-- may come within a round; a call of `join` that still waits leaves all as it is.
pub mod Stopped
pub mod Joined
pub mod Round
use flux_gate.Base.{
  ℕ, suc, Bool, true, false, none, some, List, [], ◌∷◌, length, get_elem?, set, ltb, if◌then◌else◌,
}
use flux_gate.Backend.{Backend, set_healthy}
use flux_gate.Health.{ProbeStates, Thresholds, probe, store}

-- `thread_`: not joinable; in `checkOnce` before the probe of that index; at the loop's tests; at its
-- end.
pub data Thread : Type 0 where
  no_thread : Thread
  probing : ℕ → Thread
  looping : Thread
  ended : Thread

-- `terminated`: a thread is assigned to a joinable one, which ends the process.
pub record Checker : Type 0 where
  pub running : Bool
  pub thread : Thread
  pub terminated : Bool
  pub health : List Backend × ProbeStates

abbrev pub with_thread : Thread → Checker → Checker
with_thread t c = record c { thread = t }

-- The assignment in `start`.
assign_thread : Thread → Checker → Checker
assign_thread no_thread c = record c { running = true; thread = probing 0 }
assign_thread (probing i) c = record c { running = true; terminated = true }
assign_thread looping c = record c { running = true; terminated = true }
assign_thread ended c = record c { running = true; terminated = true }

unfoldable pub start : Checker → Checker
unfolding assign_thread
start c = if c.running then c else assign_thread c.thread c

unfoldable pub stop : Checker → Checker
stop c = record c { running = false }

unfoldable pub join_thread : Thread → Checker → Checker
join_thread no_thread c = c
join_thread (probing i) c = c
join_thread looping c = c
join_thread ended c = with_thread no_thread c

unfoldable pub join : Checker → Checker
unfolding join_thread
join c = join_thread c.thread c

-- The body of the loop of `checkOnce`, for the backend of index `i`, with the probe's answer.
unfoldable pub probe_at :
    Thresholds → ℕ → Bool → List Backend × ProbeStates → List Backend × ProbeStates
unfolding probe set_healthy
probe_at t i reachable (bs, states) = elim (get_elem? bs i) [
  | none ↦ (bs, states)
  | some b ↦
      let (s, current) = probe t reachable (states i, b.healthy) in
      (set bs i (set_healthy b current), store states i s)
]

-- `run`: a round of probes first, whatever `running_` is, and one for each test that finds it set.
unfoldable pub pass_thread : Thresholds → Bool → Thread → Checker → Checker
unfolding probe_at
pass_thread t reachable no_thread c = c
pass_thread t reachable (probing i) c =
    if ltb i (length c.health.0)
    then record c { thread = probing (suc i); health = probe_at t i reachable c.health }
    else with_thread looping c
pass_thread t reachable looping c =
    if c.running then with_thread (probing 0) c else with_thread ended c
pass_thread t reachable ended c = c

-- A step of the thread; a probe that it makes has this answer.
unfoldable pub pass : Thresholds → Bool → Checker → Checker
unfolding pass_thread
pass t reachable c = pass_thread t reachable c.thread c

pub data Step : Type 0 where
  starts : Step
  stops : Step
  joins : Step
  passes : Bool → Step

unfoldable pub step : Thresholds → Step → Checker → Checker
unfolding start stop join pass
step t starts c = start c
step t stops c = stop c
step t joins c = join c
step t (passes reachable) c = pass t reachable c

unfoldable pub run_steps : Thresholds → List Step → Checker → Checker
unfolding step
run_steps t [] c = c
run_steps t (s ∷ ss) c = run_steps t ss (step t s c)
