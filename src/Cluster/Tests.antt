-- ===== src/Cluster/Tests.antt =====
-- Two workers of src/main.cpp over one pool.
use flux_gate.Base.{
  ℕ, zero, suc, sym, true, length, ◌≡◌, refl, false, List, [], ◌∷◌, none, some, arith, add64, sub64,
  mul64,
}
use flux_gate.Backend.{record_connect_success, set_healthy}
use flux_gate.Pool.{acquire}
use flux_gate.Pool.Leases.{Tally}
use flux_gate.Metrics.{new_metrics, on_opened}
use flux_gate.Session.State.{new_session}
use flux_gate.Worker.Queue.{enqueue}
use flux_gate.Worker.Tests.{clock, clock-IsKernel, fresh, client, all_idle}
use flux_gate.Worker.Reactor.{Waited, ready, posts, turns}
use flux_gate.Worker.Reactor.Tests.{setup, started, answers, signal, events}
use flux_gate.Cluster.Leases.{all_leases}
use flux_gate.Cluster.Ready.{IsNew, AllCounted}
use flux_gate.Cluster.Runs.{run_cluster-count}
use flux_gate.Cluster.Shutdown.{
  some-injective, All, IsEnded, IsReleased, joined, shut_down_steps-release,
}
use flux_gate.Cluster.{Cluster, ClusterStep, works, checks, run_cluster}

abbrev cluster : Cluster ℕ
cluster = record {
  reactors = started ∷ started ∷ [];
  pool = fresh.world.pool;
  metrics = new_metrics;
}

-- Each worker gets a client and serves it; a backend is found down in between.
abbrev steps : List ClusterStep
steps =
    works 0 (posts (client 10) none)
    ∷ works 1 (posts (client 20) none)
    ∷ works 0 (turns answers (ready (signal 5 events ∷ [])))
    ∷ checks 0 false
    ∷ works 1 (turns answers (ready (signal 5 events ∷ [])))
    ∷ []

steps_leave : all_leases (run_cluster clock setup steps cluster).reactors ≡ some 0 ∷ some 1 ∷ []
unfolding run_cluster acquire new_session add64 sub64 mul64 record_connect_success enqueue on_opened
    set_healthy
steps_leave = refl

started-IsNew : IsNew started
started-IsNew = record {
  no_sessions = refl;
  none_active = refl;
  first_id = refl;
  none_taken = refl;
  none_closed = refl;
  no_clients = refl;
}

run_cluster-count_example :
    Tally
      (run_cluster clock setup steps cluster).pool
      (all_leases (run_cluster clock setup steps cluster).reactors)
    × AllCounted (run_cluster clock setup steps cluster).reactors
run_cluster-count_example =
    run_cluster-count clock clock-IsKernel setup (omega arith) steps cluster (omega arith)
      (started-IsNew, (started-IsNew, tt)) all_idle

abbrev no_signal : ℕ → Waited
no_signal j = ready []

-- Both workers still loop after the steps.
steps_loop : All (λ r. r.looping ≡ true) (run_cluster clock setup steps cluster).reactors
unfolding run_cluster acquire new_session add64 sub64 mul64 record_connect_success enqueue on_opened
    set_healthy
steps_loop zero r at = rw (sym (some-injective _ r at)) refl
steps_loop (suc zero) r at = rw (sym (some-injective _ r at)) refl
steps_loop (suc (suc j)) r at = cc

steps_size : length (run_cluster clock setup steps cluster).reactors ≡ 2
unfolding run_cluster acquire new_session add64 sub64 mul64 record_connect_success enqueue on_opened
    set_healthy
steps_size = refl

shut_down_steps-release_example :
    All IsEnded (joined clock setup (λ j. answers) no_signal steps cluster).reactors
    × All IsReleased (joined clock setup (λ j. answers) no_signal steps cluster).reactors
    × Tally (joined clock setup (λ j. answers) no_signal steps cluster).pool []
shut_down_steps-release_example =
    shut_down_steps-release clock setup (λ j. answers) no_signal steps cluster clock-IsKernel
      (omega arith) (omega (arith, steps_size)) (started-IsNew, (started-IsNew, tt)) all_idle
      steps_loop
