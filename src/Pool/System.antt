-- ===== src/Pool/System.antt =====
-- The clients of include/fluxgate/BackendPool.h: a pool with the leases that they hold, and what
-- they and the health checker may do.
use flux_gate.Base.{
  ℕ, zero, suc, ◌+◌, ◌≤◌, ◌≡◌, ◌≢◌, sym, ◌∙◌, ◌⊎◌, inl, inr, Bool, List, [], ◌∷◌, Option, none,
  some, length, get_elem?, set, ◌==◌, if◌then◌else◌, arith, get_elem?-set_self, get_elem?-set_ne,
  get_elem?-lt-length, Option-cases, Bool-cases, ==_iff,
}
use flux_gate.Backend.{Backend, set_healthy}
use flux_gate.Pool.{Pool, Lease, update_backend, reset_lease, move_lease, assign_lease, acquire}

-- A pool and the leases that its clients hold.
pub record System : Type 0 where
  pub pool : Pool
  pub leases : List Lease

pub data Action : Type 0 where
  acquires : Action
  destroys moves : ℕ → Action
  assigns : ℕ → ℕ → Action
  probes : ℕ → Bool → Action

abbrev pub remove_at {ℓ} : {A : Type ℓ} → ℕ → List A → List A
remove_at k [] = []
remove_at zero (x ∷ xs) = xs
remove_at (suc k) (x ∷ xs) = x ∷ remove_at k xs

unfoldable pub destroy_at : ℕ → Option Lease → System → System
unfolding reset_lease
destroy_at k none s = s
destroy_at k (some l) s = record { pool = (reset_lease l s.pool).0; leases = remove_at k s.leases }

unfoldable pub move_at : ℕ → Option Lease → System → System
unfolding move_lease
move_at k none s = s
move_at k (some l) s = record s { leases = (move_lease l).0 ∷ set s.leases k (move_lease l).1 }

unfoldable pub assign_at : ℕ → ℕ → Option Lease → Option Lease → System → System
unfolding assign_lease
assign_at k m (some this) (some other) s =
    let (q, taken, left) = assign_lease this other s.pool in
    record { pool = q; leases = set (set s.leases k taken) m left }
assign_at k m _ _ s = s

-- One action of a client, or of the health checker. `this != &other` is the guard of the move
-- assignment.
unfoldable pub act : System → Action → System
unfolding destroy_at move_at assign_at update_backend set_healthy
act s acquires = record { pool = (acquire s.pool).0; leases = (acquire s.pool).1 ∷ s.leases }
act s (destroys k) = destroy_at k (get_elem? s.leases k) s
act s (moves k) = move_at k (get_elem? s.leases k) s
act s (assigns k m) =
    if k == m then s else assign_at k m (get_elem? s.leases k) (get_elem? s.leases m) s
act s (probes i value) = record s { pool = update_backend (λ b. set_healthy b value) i s.pool }

abbrev pub points : ℕ → Lease → ℕ
points i none = 0
points i (some j) = if j == i then 1 else 0

-- How many of the leases hold backend `i`.
abbrev pub count : ℕ → List Lease → ℕ
count i [] = 0
count i (l ∷ ls) = points i l + count i ls

points-le : (i : ℕ) (l : Lease) → points i l ≤ 1
points-le i none = omega arith
points-le i (some j) = ground arith

pub count-le-length : (i : ℕ) (ls : List Lease) → count i ls ≤ length ls
count-le-length i [] = omega arith
count-le-length i (l ∷ ls) = omega (arith, points-le i l, count-le-length i ls)

pub count-set :
    (i k : ℕ) (ls : List Lease) (l m : Lease)
    → get_elem? ls k ≡ some l
    → count i (set ls k m) + points i l ≡ count i ls + points i m
count-set i k [] l m h = cc
count-set i zero (x ∷ ls) l m h = ground arith
count-set i (suc k) (x ∷ ls) l m h = omega (arith, count-set i k ls l m h)

pub count-remove_at :
    (i k : ℕ) (ls : List Lease) (l : Lease)
    → get_elem? ls k ≡ some l
    → count i (remove_at k ls) + points i l ≡ count i ls
count-remove_at i k [] l h = cc
count-remove_at i zero (x ∷ ls) l h = ground arith
count-remove_at i (suc k) (x ∷ ls) l h = omega (arith, count-remove_at i k ls l h)

pub length-remove_at : (k : ℕ) (ls : List Lease) → length (remove_at k ls) ≤ length ls
length-remove_at k [] = omega arith
length-remove_at zero (x ∷ ls) = omega arith
length-remove_at (suc k) (x ∷ ls) = omega (arith, length-remove_at k ls)

-- What stands at an index after an update at another or the same index.
module _ (f : Backend → Backend) (j : ℕ) (p : Pool) where
  update_missing : get_elem? p.backends j ≡ none → update_backend f j p ≡ p
  unfolding update_backend
  update_missing h = rw (h, update_backend)

  update_found :
      (a : Backend)
      → get_elem? p.backends j ≡ some a
      → update_backend f j p ≡ record p { backends = set p.backends j (f a) }
  unfolding update_backend
  update_found a h = rw (h, update_backend)

  -- Backend `b` at index `i` is as before, or it is the image of the one that stood at `j`.
  abbrev pub Updated : ℕ → Backend → Type 0
  Updated i b =
      ((j ≢ i) × (get_elem? p.backends i ≡ some b))
      ⊎ ((a : Backend) × (j ≡ i) × (get_elem? p.backends i ≡ some a) × (b ≡ f a))

  set_at :
      (i : ℕ) (a b : Backend)
      → get_elem? p.backends j ≡ some a
      → get_elem? (set p.backends j (f a)) i ≡ some b
      → Updated i b
  set_at i a b found h = elim (Bool-cases (j == i)) [
    | inl same ↦
        let e = (==_iff j i).0 same in
        let here =
          get_elem?-set_self p.backends j (f a) (get_elem?-lt-length p.backends j a found) in
        inr (a, e, rw e at found, cc (e, here))
    | inr other ↦
        let ne : j ≢ i = λ e. cc ((==_iff j i).1 e, other) in
        inl (ne, sym (get_elem?-set_ne p.backends j i (f a) ne) ∙ h)
  ]

  pub update_at :
      (i : ℕ) (b : Backend) → get_elem? (update_backend f j p).backends i ≡ some b → Updated i b
  update_at i b h = elim (Option-cases (get_elem? p.backends j)) [
    | inl missing ↦
        let h' : get_elem? p.backends i ≡ some b = rw (update_missing missing) at h in
        inl (λ e. cc (rw e at missing, h'), h')
    | inr (a, found) ↦ set_at i a b found (rw (update_found a found) at h)
  ]
