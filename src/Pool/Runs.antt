-- ===== src/Pool/Runs.antt =====
-- The pool of include/fluxgate/BackendPool.h after any history of its clients' calls.
use mathlib.Core.Option.{some-injective}
use flux_gate.Base.{
  ℕ, zero, suc, ◌+◌, ◌≤◌, ◌<◌, ◌≡◌, refl, ap, inl, inr, true, List, [], ◌∷◌, Option, none, some,
  length, get_elem?, set, ◌==◌, arith, length-set, Bool-cases, ok, >>=-eq-ok, ok-injective,
}
use flux_gate.Backend.{Bytes, BackendConfig, Endpoint, Backend, new_backend}
use flux_gate.Pool.{Pool, Lease, acquire, new_backends, new_pool}
use flux_gate.Pool.Load.{AllSmall}
use flux_gate.Pool.Least.{IsLeast, acquire-IsLeast}
use flux_gate.Pool.System.{
  System, Action, acquires, destroys, moves, assigns, probes, destroy_at, move_at, assign_at, act,
  count, count-le-length, length-remove_at,
}
use flux_gate.Pool.Leases.{Counted, act-Counted}
use flux_gate.Pool.Formed.{IsFormed, act-IsFormed}

unfoldable pub run_actions : System → List Action → System
run_actions s [] = s
run_actions s (a ∷ as') = run_actions (act s a) as'

-- An action adds one lease at most.
length-act : (s : System) (a : Action) → length (act s a).leases ≤ suc (length s.leases)
unfolding act
length-act s acquires = omega arith
length-act s (destroys k) = length-destroy k (get_elem? s.leases k)
  where
    length-destroy :
        (k : ℕ) (o : Option Lease) → length (destroy_at k o s).leases ≤ suc (length s.leases)
    length-destroy k none = unfold destroy_at in omega arith
    length-destroy k (some l) = unfold destroy_at in omega (arith, length-remove_at k s.leases)
length-act s (moves k) = length-move k (get_elem? s.leases k)
  where
    length-move : (k : ℕ) (o : Option Lease) → length (move_at k o s).leases ≤ suc (length s.leases)
    length-move k none = unfold move_at in omega arith
    length-move k (some l) = unfold move_at in omega (arith, length-set s.leases k none)
length-act s (assigns k m) = elim (Bool-cases (k == m)) [
  | inl same ↦ rw same (omega arith)
  | inr other ↦ rw other (length-assign (get_elem? s.leases k) (get_elem? s.leases m))
]
  where
    length-assign :
        (o r : Option Lease) → length (assign_at k m o r s).leases ≤ suc (length s.leases)
    length-assign none r = unfold assign_at in omega arith
    length-assign (some l) none = unfold assign_at in omega arith
    length-assign (some l) (some o) =
        unfold assign_at in
        omega (arith, length-set s.leases k o, length-set (set s.leases k o) m none)
length-act s (probes i value) = omega arith

run_actions-keeps :
    (as' : List Action) (s : System)
    → length s.leases + length as' < 1_000_000_000_000
    → Counted s
    → IsFormed s.pool
    → Counted (run_actions s as') × IsFormed (run_actions s as').pool
unfolding run_actions
run_actions-keeps [] s few c f = (c, f)
run_actions-keeps (a ∷ as') s few c f =
    run_actions-keeps as' (act s a) (omega (arith, few, length-act s a))
      (act-Counted s a (omega arith) c) (act-IsFormed s a f)

abbrev pub AllWeighted : List BackendConfig → Type 0
AllWeighted [] = Unit
AllWeighted (c ∷ cs) = ((0 < c.weight) × (c.weight ≤ 1000)) × AllWeighted cs

abbrev pub IsFresh : List Backend → Type 0
IsFresh bs =
    (i : ℕ) (b : Backend)
    → get_elem? bs i ≡ some b
    → (b.active_connections ≡ 0) × (b.healthy ≡ true) × (0 < b.weight) × (b.weight ≤ 1000)

-- A pool with no lease.
abbrev pub start : Pool → System
start p = record { pool = p; leases = [] }

module _ (resolve : Bytes → ℕ → Option Endpoint) where
  new_backend-fields :
      (c : BackendConfig) (b : Backend)
      → new_backend resolve c ≡ ok b
      → (b.active_connections ≡ 0) × (b.healthy ≡ true) × (b.config ≡ c)
  unfolding new_backend
  new_backend-fields c b h = ground arith

  IsFresh-cons :
      (b : Backend) (bs : List Backend)
      → (b.active_connections ≡ 0) × (b.healthy ≡ true) × (0 < b.weight) × (b.weight ≤ 1000)
      → IsFresh bs
      → IsFresh (b ∷ bs)
  IsFresh-cons b bs h rest zero c at = rw (← some-injective b c at) h
  IsFresh-cons b bs h rest (suc i) c at = rest i c at

  new_backends-IsFresh :
      (cs : List BackendConfig) (bs : List Backend)
      → AllWeighted cs
      → new_backends resolve cs ≡ ok bs
      → IsFresh bs × (length bs ≡ length cs)
  unfolding new_backends
  new_backends-IsFresh [] bs w h = rw (← ok-injective [] bs h) ((λ i b at. absurd (cc)), refl)
  new_backends-IsFresh (c ∷ cs) bs w h =
      let (b, made, h') = >>=-eq-ok (new_backend resolve c) _ bs h in
      let (rest, made', h'') = >>=-eq-ok (new_backends resolve cs) _ bs h' in
      let (fresh, e) = new_backends-IsFresh cs rest w.1 made' in
      let (idle, up, same) = new_backend-fields c b made in
      let weighted : (0 < b.weight) × (b.weight ≤ 1000) = rw same w.0 in
      rw (← ok-injective (b ∷ rest) bs h'')
        (IsFresh-cons b rest (idle, up, weighted.0, weighted.1) fresh, ap suc e)

  pub new_pool-IsFresh :
      (cs : List BackendConfig) (p : Pool)
      → AllWeighted cs
      → new_pool resolve cs ≡ ok p
      → IsFresh p.backends × (0 < length p.backends)
  unfolding new_pool
  new_pool-IsFresh [] p w h = cc
  new_pool-IsFresh (c ∷ cs) p w h =
      let (bs, made, h') = >>=-eq-ok (new_backends resolve (c ∷ cs)) _ p h in
      let (fresh, e) = new_backends-IsFresh (c ∷ cs) bs w made in
      let same = ok-injective (record { backends = bs; tie_breaker = 0 }) p h' in
      rw (← same) (fresh, omega (arith, e))

  module _ (cs : List BackendConfig) (p : Pool) (acts : List Action) (weights : AllWeighted cs)
      (few : length acts < 1_000_000_000_000) (made : new_pool resolve cs ≡ ok p) where
    run_actions_keeps :
        Counted (run_actions (start p) acts) × IsFormed (run_actions (start p) acts).pool
    run_actions_keeps =
        let (fresh, filled) = new_pool-IsFresh cs p weights made in
        run_actions-keeps acts (start p) (omega (arith, few))
          (record { counted = λ i b at. (fresh i b at).0; bounded = omega arith })
          (record { filled = filled; weighted = λ i b at. let f = fresh i b at in (f.2, f.3) })

    -- In a pool made from a configuration with weights from 1 to 1000, after any history of fewer
    -- than 10 ^ 12 acquisitions, moves, assignments, destructions of leases and changes of
    -- health, each backend's active count is the number of leases that hold it.
    pub run_actions-count :
        (i : ℕ) (b : Backend)
        → get_elem? (run_actions (start p) acts).pool.backends i ≡ some b
        → b.active_connections ≡ count i (run_actions (start p) acts).leases
    run_actions-count = run_actions_keeps.0.counted

    run_actions-AllSmall : AllSmall (run_actions (start p) acts).pool.backends
    run_actions-AllSmall i b at =
        let w = run_actions_keeps.1.weighted i b at in
        record {
          weighted = w.0;
          light = w.1;
          few = omega (
            arith,
            run_actions-count i b at,
            count-le-length i (run_actions (start p) acts).leases,
            run_actions_keeps.0.bounded,
          );
        }

    -- In a pool made from a configuration with weights from 1 to 1000, after any history of fewer
    -- than 10 ^ 12 actions, a lease that `acquire` gives is for a healthy backend of least active
    -- / weight, the first such in the rotating order.
    pub run_actions-IsLeast :
        (i : ℕ)
        → (acquire (run_actions (start p) acts).pool).1 ≡ some i
        → (b : Backend) × IsLeast (run_actions (start p) acts).pool i b
    run_actions-IsLeast i =
        acquire-IsLeast (run_actions (start p) acts).pool i run_actions_keeps.1.filled
          run_actions-AllSmall
