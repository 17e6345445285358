-- ===== src/Pool.antt =====
-- include/fluxgate/BackendPool.h and src/BackendPool.cpp: leases of backends, and the weighted
-- least-connections choice. A `shared_ptr<Backend>` is the index of the backend in the pool, null
-- is `none`. `acquire` holds the mutex, so it is one step.
pub mod Load
pub mod Choice
pub mod Least
pub mod System
pub mod Leases
pub mod Formed
pub mod Runs
pub mod Tests
use flux_gate.Base.{
  ℕ, zero, suc, ◌+◌, ◌%◌, Bool, true, false, not, ◌||◌, List, [], ◌∷◌, Option, none, some, length,
  get_elem?, set, ltb, if◌then◌else◌, add64, mul64, Result, ok, err, ◌>>=◌,
}
use flux_gate.Backend.{
  Bytes, BackendConfig, Endpoint, Backend, PoolError, empty_pool, new_backend, acquire_connection,
  release_connection,
}

pub record Pool : Type 0 where
  pub backends : List Backend
  pub tie_breaker : ℕ

unfoldable pub new_backends :
    (Bytes → ℕ → Option Endpoint) → List BackendConfig → Result PoolError (List Backend)
new_backends resolve [] = ok []
new_backends resolve (c ∷ cs) = do
  b ← new_backend resolve c
  bs ← new_backends resolve cs
  ok (b ∷ bs)

-- `BackendPool::BackendPool`.
unfoldable pub new_pool : (Bytes → ℕ → Option Endpoint) → List BackendConfig → Result PoolError Pool
unfolding new_backends
new_pool resolve [] = err empty_pool
new_pool resolve (c ∷ cs) = do
  bs ← new_backends resolve (c ∷ cs)
  ok (record { backends = bs; tie_breaker = 0 })

-- Apply a member function to the backend that a pointer stands for.
unfoldable pub update_backend : (Backend → Backend) → ℕ → Pool → Pool
update_backend f i p = elim (get_elem? p.backends i) [
  | none ↦ p
  | some b ↦ record p { backends = set p.backends i (f b) }
]

-- A lease holds its backend, or nothing.
abbrev pub Lease : Type 0
Lease = Option ℕ

-- `BackendLease::BackendLease(const std::shared_ptr<Backend>&)`.
unfoldable pub new_lease : Lease → Pool → Pool × Lease
unfolding update_backend acquire_connection
new_lease none p = (p, none)
new_lease (some i) p = (update_backend acquire_connection i p, some i)

-- `BackendLease::reset`, which the destructor calls too.
unfoldable pub reset_lease : Lease → Pool → Pool × Lease
unfolding update_backend release_connection
reset_lease none p = (p, none)
reset_lease (some i) p = (update_backend release_connection i p, none)

-- The move constructor: the new lease and what is left of the old one.
unfoldable pub move_lease : Lease → Lease × Lease
move_lease other = (other, none)

-- Move assignment between two distinct leases.
unfoldable pub assign_lease : Lease → Lease → Pool → Pool × Lease × Lease
unfolding reset_lease move_lease
assign_lease this other p =
    let (q, empty) = reset_lease this p in let (taken, left) = move_lease other in (q, taken, left)

-- `candidate` is less loaded than `selected`: the comparison by cross multiplication.
unfoldable pub is_less_loaded : Backend → Backend → Bool
is_less_loaded candidate selected =
    ltb (mul64 candidate.active_connections selected.weight)
      (mul64 selected.active_connections candidate.weight)

-- The choice between `selected` and a healthy candidate at `index`.
prefer : List Backend → Option ℕ → ℕ → Backend → Option ℕ
unfolding is_less_loaded
prefer bs none index candidate = some index
prefer bs (some s) index candidate = elim (get_elem? bs s) [
  | none ↦ some s
  | some current ↦ if is_less_loaded candidate current then some index else some s
]

-- The body of the loop in `BackendPool::acquire`, at one index.
unfoldable pub consider : List Backend → Option ℕ → ℕ → Option ℕ
unfolding prefer
consider bs selected index = elim (get_elem? bs index) [
  | none ↦ selected
  | some candidate ↦ if not candidate.healthy then selected else prefer bs selected index candidate
]

-- The loop, with the number of rounds left.
unfoldable pub select_from : List Backend → ℕ → ℕ → ℕ → Option ℕ → Option ℕ
unfolding consider
select_from bs start offset zero selected = selected
select_from bs start offset (suc rounds) selected =
    select_from bs start (suc offset) rounds (consider bs selected ((start + offset) % length bs))

-- `BackendPool::acquire`.
unfoldable pub acquire : Pool → Pool × Lease
unfolding select_from new_lease
acquire p =
    let start = p.tie_breaker % length p.backends in
    let selected = select_from p.backends start 0 (length p.backends) none in
    new_lease selected (record p { tie_breaker = add64 p.tie_breaker 1 })

has_healthy : List Backend → Bool
has_healthy [] = false
has_healthy (b ∷ bs) = b.healthy || has_healthy bs

unfoldable pub has_healthy_backend : Pool → Bool
unfolding has_healthy
has_healthy_backend p = has_healthy p.backends
