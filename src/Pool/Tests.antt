-- ===== src/Pool/Tests.antt =====
-- Runs and instances for src/BackendPool.cpp, with the pools of tests/fluxgate_tests.cpp.
use mathlib.Core.Option.{some-injective}
use flux_gate.Base.{
  zero, ℕ, suc, ◌≡◌, ◌↔◌, refl, Bool, true, false, List, [], ◌∷◌, Option, none, some, get_elem?,
  arith, add64, mul64, sub64, ok,
}
use flux_gate.Backend.{Bytes, BackendConfig, Endpoint, Backend, new_backend}
use flux_gate.Pool.{Pool, new_pool, acquire, has_healthy_backend}
use flux_gate.Pool.Load.{AllSmall, IsSmall}
use flux_gate.Pool.Least.{IsLeast, acquire-IsLeast, acquire-none}
use flux_gate.Pool.System.{System, Action, acquires, destroys, moves, assigns, probes, act, count}
use flux_gate.Pool.Runs.{start, run_actions, run_actions-count, run_actions-IsLeast}

abbrev loopback : Bytes → ℕ → Option Endpoint
loopback host port = some (record { address = host; text = host })

abbrev configured : ℕ → ℕ → BackendConfig
configured port weight = record { name = port ∷ []; host = 127 ∷ []; port = port; weight = weight }

abbrev backend_at : ℕ → ℕ → Bool → Backend
backend_at port weight up = record {
  config = configured port weight;
  endpoint = record { address = 127 ∷ []; text = 127 ∷ [] };
  healthy = up;
  active_connections = 0;
  total_connections = 0;
  failed_connections = 0;
}

abbrev two : Pool
two = record { backends = backend_at 19001 1 true ∷ backend_at 19002 2 true ∷ []; tie_breaker = 0 }

two_made : new_pool loopback (configured 19001 1 ∷ configured 19002 2 ∷ []) ≡ ok two
unfolding new_pool new_backend
two_made = refl

abbrev six : List Action
six = acquires ∷ acquires ∷ acquires ∷ acquires ∷ acquires ∷ acquires ∷ []

-- Weights 1 and 2 share six leases as 2 and 4.
six_leases :
    (count 0 (run_actions (start two) six).leases ≡ 2)
    × (count 1 (run_actions (start two) six).leases ≡ 4)
unfolding run_actions act acquire add64 mul64
six_leases = (refl, refl)

abbrev half_down : Pool
half_down = record {
  backends = backend_at 19001 1 false ∷ backend_at 19002 1 true ∷ [];
  tie_breaker = 0;
}

half_down-acquire : (acquire half_down).1 ≡ some 1
unfolding acquire add64 mul64
half_down-acquire = refl

IsSmall-backend : (port : ℕ) (up : Bool) → IsSmall (backend_at port 1 up)
IsSmall-backend port up = record { weighted = omega arith; light = omega arith; few = omega arith }

half_down-AllSmall : AllSmall half_down.backends
half_down-AllSmall zero b at = rw (← some-injective _ b at) (IsSmall-backend 19001 false)
half_down-AllSmall (suc zero) b at = rw (← some-injective _ b at) (IsSmall-backend 19002 true)
half_down-AllSmall (suc (suc i)) b at = cc

acquire-IsLeast_example : (b : Backend) × IsLeast half_down 1 b
acquire-IsLeast_example =
    acquire-IsLeast half_down 1 (omega arith) half_down-AllSmall half_down-acquire

acquire-none_example : ((acquire half_down).1 ≡ none) ↔ (has_healthy_backend half_down ≡ false)
acquire-none_example = acquire-none half_down (omega arith) half_down-AllSmall

abbrev history : List Action
history = acquires ∷ acquires ∷ moves 0 ∷ probes 1 false ∷ acquires ∷ destroys 1 ∷ assigns 0 1 ∷ []

abbrev lived : System
lived = run_actions (start two) history

one_left :
    get_elem? lived.pool.backends 0
    ≡ some (record (backend_at 19001 1 true) { active_connections = 1 })
unfolding run_actions act acquire add64 mul64 sub64
one_left = refl

run_actions-count_example : 1 ≡ count 0 lived.leases
run_actions-count_example =
    run_actions-count loopback (configured 19001 1 ∷ configured 19002 2 ∷ []) two history
      (omega arith) (omega arith) two_made 0
      (record (backend_at 19001 1 true) { active_connections = 1 }) one_left

next_lease : (acquire lived.pool).1 ≡ some 0
unfolding run_actions act acquire add64 mul64 sub64
next_lease = refl

run_actions-IsLeast_example : (b : Backend) × IsLeast lived.pool 0 b
run_actions-IsLeast_example =
    run_actions-IsLeast loopback (configured 19001 1 ∷ configured 19002 2 ∷ []) two history
      (omega arith) (omega arith) two_made 0 next_lease
