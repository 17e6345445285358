-- ===== src/Cluster/Runs.antt =====
-- The shared pool under the workers of src/main.cpp and the health checker.
use flux_gate.Base.{
  ℕ, suc, ◌+◌, ◌-◌, ◌<◌, ◌≤◌, ◌≡◌, refl, sym, inl, inr, List, [], ◌∷◌, some, length, get_elem?, set,
  get_elem?-set_self, get_elem?-lt-length, arith, word_mod, Option-cases,
}
use mathlib.Core.Path.{subst}
use flux_gate.Backend.{set_healthy}
use flux_gate.Io.{Kernel, IsKernel}
use flux_gate.Pool.System.{count}
use flux_gate.Pool.Leases.{Tally}
use flux_gate.Worker.Books.{leases, Tally-steady}
use flux_gate.Worker.Reactor.Turns.{IsRunning, act-IsRunning}
use flux_gate.Worker.Reactor.{Setup, Reactor}
use flux_gate.Cluster.Leases.{
  all_leases, other_leases, all_queued, count-all_leases, length-all_leases, all_queued-at,
  other_leases-set, other_queued-set, Tally-count,
}
use flux_gate.Cluster.Ready.{
  AllNew, AllCounted, AllNew-AllReady, AllNew-all_leases, AllNew-all_queued, AllReady-AllCounted,
  AllReady, AllReady-at, AllReady-later, AllReady-set, length-act,
}
use flux_gate.Cluster.{Cluster, lend, settle, ClusterStep, works, checks, step_cluster, run_cluster}

-- After `t` steps.
record IsShared {S : Type 0} (t : ℕ) (cl : Cluster S) : Type 0 where
  tally : Tally cl.pool (all_leases cl.reactors)
  busy : length (all_leases cl.reactors) + all_queued cl.reactors ≤ t
  each : AllReady t (all_queued cl.reactors) cl.reactors

module _ {S : Type 0} (k : Kernel S) (law : IsKernel k) (c : Setup)
    (fits : c.buffer_size < word_mod) where
  module _ (t j : ℕ) (cl : Cluster S) (r : Reactor S) (at : get_elem? cl.reactors j ≡ some r)
      (h : IsShared t cl) where
    -- The clients that have been taken from the queues, or may have been.
    abbrev made : ℕ
    made = t - all_queued cl.reactors

    -- The worker meets the shared pool with the other workers' leases in it.
    lent-IsRunning :
        IsRunning
          (other_leases j cl.reactors)
          (made + length r.inbox.queue)
          (lend cl.pool cl.metrics r)
    lent-IsRunning =
        let ready = AllReady-at t (all_queued cl.reactors) j cl.reactors r at h.each in
        let others = other_leases j cl.reactors in
        record {
          made = made;
          served = record {
            booked = record {
              tally =
                  Tally-count cl.pool (all_leases cl.reactors) (leases others r.worker.sessions)
                    (λ i. sym (count-all_leases i j cl.reactors r at)) h.tally;
              active = ready.active;
              known = ready.known;
              few = omega (arith, length-all_leases j cl.reactors r at, h.busy);
              given = omega (arith, ready.given, h.busy);
            };
            valid = ready.valid;
            kept = ready.kept;
          };
          room = omega arith;
        }

    -- What the worker leaves is shared again.
    settle-IsShared :
        (r' : Reactor S)
        → length r'.inbox.queue ≤ suc (length r.inbox.queue)
        → IsRunning (other_leases j cl.reactors) (suc (made + length r.inbox.queue)) r'
        → IsShared (suc t) (settle j r' cl)
    settle-IsShared r' grown g =
        let rs = set cl.reactors j r' in
        let at' = get_elem?-set_self cl.reactors j r' (get_elem?-lt-length cl.reactors j r at) in
        let same = other_leases-set j cl.reactors r' in
        let parts = length-all_leases j rs r' at' in
        let before = all_queued-at j cl.reactors r at in
        let after = all_queued-at j rs r' at' in
        let apart = other_queued-set j cl.reactors r' in
        let size : length (other_leases j rs) ≡ length (other_leases j cl.reactors) =
          rw same refl in
        record {
          tally =
              Tally-count r'.worker.world.pool
                (leases (other_leases j cl.reactors) r'.worker.sessions) (all_leases rs)
                (λ i.
                  subst
                    (λ others. count i (leases others r'.worker.sessions) ≡ count i (all_leases rs))
                    same (count-all_leases i j rs r' at'))
                g.served.booked.tally;
          busy =
              omega (arith, parts, size, before, after, apart, g.served.booked.few, g.room, h.busy);
          each =
              AllReady-set (suc t) (all_queued rs) j cl.reactors r'
                (record {
                  active = g.served.booked.active;
                  known = g.served.booked.known;
                  given =
                      omega (arith, before, after, apart, g.served.booked.given, g.room, h.busy);
                  valid = g.served.valid;
                  kept = g.served.kept;
                })
                (AllReady-later t (all_queued cl.reactors) (all_queued rs) cl.reactors
                  (omega (arith, before, after, apart, grown)) h.each);
        }

  step_cluster-IsShared :
      (s : ClusterStep) (t : ℕ) (cl : Cluster S)
      → suc t < 1_000_000_000_000
      → IsShared t cl
      → IsShared (suc t) (step_cluster k c s cl)
  unfolding step_cluster set_healthy
  step_cluster-IsShared (works j a) t cl small h = elim (Option-cases (get_elem? cl.reactors j)) [
    | inl missing ↦
        rw (missing, step_cluster)
          (record {
            tally = h.tally;
            busy = omega (arith, h.busy);
            each = AllReady-later t _ _ cl.reactors (omega arith) h.each;
          })
    | inr (r, at) ↦
        let n : ℕ = made t j cl r at h + length r.inbox.queue in
        rw (at, step_cluster)
          (settle-IsShared t j cl r at h _ (length-act k c a (lend cl.pool cl.metrics r)) (
            act-IsRunning k law c fits n a (lend cl.pool cl.metrics r)
              (omega (arith, small, h.busy, all_queued-at j cl.reactors r at))
              (lent-IsRunning t j cl r at h)))
  ]
  step_cluster-IsShared (checks i up) t cl small h = record {
    tally =
        Tally-steady cl.pool (all_leases cl.reactors) h.tally (λ b. set_healthy b up) i (λ b. refl);
    busy = omega (arith, h.busy);
    each = AllReady-later t _ _ cl.reactors (omega arith) h.each;
  }

  run_cluster-IsShared :
      (steps : List ClusterStep) (t n : ℕ) (cl : Cluster S)
      → t + length steps ≡ n
      → n < 1_000_000_000_000
      → IsShared t cl
      → IsShared n (run_cluster k c steps cl)
  unfolding run_cluster
  run_cluster-IsShared [] t n cl e small h = let same : t ≡ n = omega (arith, e) in rw same at h
  run_cluster-IsShared (s ∷ more) t n cl e small h =
      run_cluster-IsShared more (suc t) n _ (omega (arith, e)) small
        (step_cluster-IsShared s t cl (omega (arith, e, small)) h)

  -- On a lawful kernel, with buffers of fewer than 2 ^ 64 bytes, from new workers and a pool
  -- without active connections: after fewer than 10 ^ 12 steps of any of the workers (clients
  -- posted, turns of its loop, stops) and changes of a backend's health, in any order, each
  -- backend's active count is the number of sessions of all workers that hold it, each worker's
  -- count is the number of its sessions, and each descriptor that a worker has taken is held by
  -- one of its sessions or closed, as often as it was taken.
  pub run_cluster-count :
      (steps : List ClusterStep) (cl : Cluster S)
      → length steps < 1_000_000_000_000
      → AllNew cl.reactors
      → Tally cl.pool []
      → Tally (run_cluster k c steps cl).pool (all_leases (run_cluster k c steps cl).reactors)
        × AllCounted (run_cluster k c steps cl).reactors
  run_cluster-count steps cl small new idle =
      let none_left = AllNew-all_leases cl.reactors new in
      let none_queued = AllNew-all_queued cl.reactors new in
      let h = run_cluster-IsShared steps 0 (length steps) cl (omega arith) small (record {
        tally = rw none_left idle;
        busy = rw (none_left, none_queued) (omega arith);
        each = rw none_queued (AllNew-AllReady cl.reactors new);
      }) in
      (h.tally, AllReady-AllCounted _ _ _ h.each)
