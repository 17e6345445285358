-- ===== src/Cluster.antt =====
-- The workers of src/main.cpp with the pool and the metrics that they share. A step of a worker
-- meets the pool and the metrics as the others have left them; each worker has the kernel's answers
-- to the calls on its own sockets. A turn of a worker is one step here.
pub mod Leases
pub mod Ready
pub mod Runs
pub mod Shutdown
mod Tests
use flux_gate.Base.{ℕ, Bool, List, [], ◌∷◌, none, some, get_elem?, set}
use flux_gate.Backend.{set_healthy}
use flux_gate.Io.{Kernel}
use flux_gate.Metrics.{Metrics}
use flux_gate.Pool.{Pool, update_backend}
use flux_gate.Worker.Reactor.{Setup, Reactor, Action, act}

pub record Cluster (S : Type 0) : Type 0 where
  pub reactors : List (Reactor S)
  pub pool : Pool
  pub metrics : Metrics

-- A worker as it meets what is shared, and what is shared as a worker leaves it.
abbrev pub lend : {S : Type 0} → Pool → Metrics → Reactor S → Reactor S
lend p m r = record r {
  worker = record (r.worker) { world = record (r.worker.world) { pool = p; metrics = m } };
}

abbrev pub settle : {S : Type 0} → ℕ → Reactor S → Cluster S → Cluster S
settle j r cl = record {
  reactors = set cl.reactors j r;
  pool = r.worker.world.pool;
  metrics = r.worker.world.metrics;
}

-- What a worker does, and a change of a backend's health by the checker.
pub data ClusterStep : Type 0 where
  works : ℕ → Action → ClusterStep
  checks : ℕ → Bool → ClusterStep

module _ {S : Type 0} (k : Kernel S) (c : Setup) where
  unfoldable pub step_cluster : ClusterStep → Cluster S → Cluster S
  unfolding act
  step_cluster (works j a) cl = elim (get_elem? cl.reactors j) [
    | none ↦ cl
    | some r ↦ settle j (act k c a (lend cl.pool cl.metrics r)) cl
  ]
  step_cluster (checks i up) cl = record cl {
    pool = update_backend (λ b. set_healthy b up) i cl.pool;
  }

  unfoldable pub run_cluster : List ClusterStep → Cluster S → Cluster S
  unfolding step_cluster
  run_cluster [] cl = cl
  run_cluster (s ∷ more) cl = run_cluster more (step_cluster s cl)
