-- ===== src/Pool/Formed.antt =====
-- The backends and weights of a pool under the calls of include/fluxgate/BackendPool.h.
use flux_gate.Base.{
  ℕ, ◌≤◌, ◌<◌, ◌≡◌, refl, ap, inl, inr, Bool, Option, none, some, length, get_elem?, ◌==◌, arith,
  length-set, Bool-cases, Option-cases,
}
use flux_gate.Backend.{Backend, set_healthy, acquire_connection, release_connection}
use flux_gate.Pool.{Pool, Lease, update_backend, new_lease, reset_lease, acquire}
use flux_gate.Pool.Least.{selected, acquire-selected}
use flux_gate.Pool.System.{
  System, Action, acquires, destroys, moves, assigns, probes, destroy_at, move_at, assign_at, act,
  update_at,
}

-- The backends are there, with the weights that the configuration allows.
pub record IsFormed (p : Pool) : Type 0 where
  pub filled : 0 < length p.backends
  pub weighted :
      (i : ℕ) (b : Backend) → get_elem? p.backends i ≡ some b → (0 < b.weight) × (b.weight ≤ 1000)

length-update :
    (f : Backend → Backend) (j : ℕ) (p : Pool)
    → length (update_backend f j p).backends ≡ length p.backends
unfolding update_backend
length-update f j p = elim (Option-cases (get_elem? p.backends j)) [
  | inl e ↦ rw (e, update_backend)
  | inr (a, e) ↦ rw (e, update_backend) (length-set p.backends j (f a))
]

module _ (f : Backend → Backend) (kept : (b : Backend) → (f b).weight ≡ b.weight) where
  update-IsFormed : (j : ℕ) (p : Pool) → IsFormed p → IsFormed (update_backend f j p)
  update-IsFormed j p v = record {
    filled = omega (arith, length-update f j p, v.filled);
    weighted = λ i b at. elim (update_at f j p i b at) [
      | inl (ne, at') ↦ v.weighted i b at'
      | inr (a, e, at', image) ↦
          let w = v.weighted i a at' in
          omega (arith, w.0, w.1, kept a, ap (λ (t : Backend). t.weight) image)
    ];
  }

weight-acquire : (b : Backend) → (acquire_connection b).weight ≡ b.weight
unfolding acquire_connection
weight-acquire b = refl

weight-release : (b : Backend) → (release_connection b).weight ≡ b.weight
unfolding release_connection
weight-release b = ground arith

weight-set_healthy : (v : Bool) (b : Backend) → (set_healthy b v).weight ≡ b.weight
unfolding set_healthy
weight-set_healthy v b = refl

new_lease-IsFormed : (l : Lease) (p : Pool) → IsFormed p → IsFormed (new_lease l p).0
unfolding new_lease
new_lease-IsFormed none p v = v
new_lease-IsFormed (some i) p v = update-IsFormed acquire_connection weight-acquire i p v

reset_lease-IsFormed : (l : Lease) (p : Pool) → IsFormed p → IsFormed (reset_lease l p).0
unfolding reset_lease
reset_lease-IsFormed none p v = v
reset_lease-IsFormed (some i) p v = update-IsFormed release_connection weight-release i p v

pub acquire-IsFormed : (p : Pool) → IsFormed p → IsFormed (acquire p).0
acquire-IsFormed p v =
    rw (acquire-selected p)
      (new_lease-IsFormed (selected p) _ (record { filled = v.filled; weighted = v.weighted }))

module _ (s : System) (v : IsFormed s.pool) where
  destroy-IsFormed : (k : ℕ) (o : Option Lease) → IsFormed (destroy_at k o s).pool
  unfolding destroy_at
  destroy-IsFormed k none = v
  destroy-IsFormed k (some l) = reset_lease-IsFormed l s.pool v

  move-IsFormed : (k : ℕ) (o : Option Lease) → IsFormed (move_at k o s).pool
  unfolding move_at
  move-IsFormed k none = v
  move-IsFormed k (some l) = v

  assign-IsFormed : (k m : ℕ) (o r : Option Lease) → IsFormed (assign_at k m o r s).pool
  unfolding assign_at
  assign-IsFormed k m none r = v
  assign-IsFormed k m (some l) none = v
  assign-IsFormed k m (some l) (some o) = reset_lease-IsFormed l s.pool v

pub act-IsFormed : (s : System) (a : Action) → IsFormed s.pool → IsFormed (act s a).pool
unfolding act
act-IsFormed s acquires v = acquire-IsFormed s.pool v
act-IsFormed s (destroys k) v = destroy-IsFormed s v k _
act-IsFormed s (moves k) v = move-IsFormed s v k _
act-IsFormed s (assigns k m) v = elim (Bool-cases (k == m)) [
  | inl same ↦ rw same v
  | inr other ↦ rw other (assign-IsFormed s v k m _ _)
]
act-IsFormed s (probes i value) v =
    update-IsFormed (λ b. set_healthy b value) (weight-set_healthy value) i s.pool v
