-- ===== src/Pool/Leases.antt =====
-- The leases of include/fluxgate/BackendPool.h and the backends' active-connection counts.
use flux_gate.Base.{
  ℕ, suc, ◌+◌, ◌<◌, ◌≡◌, ◌≢◌, refl, ap, ◌∙◌, inl, inr, Bool, List, ◌∷◌, Option, none, some, length,
  get_elem?, set, ◌==◌, arith, length-set, get_elem?-set_ne, Bool-cases, ==_iff,
}
use flux_gate.Backend.{Backend, set_healthy, acquire_connection, release_connection}
use flux_gate.Backend.Counters.{active-acquire, active-release}
use flux_gate.Pool.{Pool, Lease, update_backend, new_lease, reset_lease}
use flux_gate.Pool.Least.{selected, acquire-selected, lease-new_lease}
use flux_gate.Pool.System.{
  System, Action, acquires, destroys, moves, assigns, probes, remove_at, destroy_at, move_at,
  assign_at, act, points, count, count-le-length, count-set, count-remove_at, length-remove_at,
  update_at,
}

pub record Counted (s : System) : Type 0 where
  pub counted :
      (i : ℕ) (b : Backend)
      → get_elem? s.pool.backends i ≡ some b
      → b.active_connections ≡ count i s.leases
  pub bounded : length s.leases < 1_000_000_000_000

-- The counts of a pool agree with a list of leases.
abbrev pub Tally : Pool → List Lease → Type 0
Tally p ls =
    (i : ℕ) (b : Backend) → get_elem? p.backends i ≡ some b → b.active_connections ≡ count i ls

points-ne : (i j : ℕ) → j ≢ i → points i (some j) ≡ 0
points-ne i j h = ground (arith, ==_iff j i)

points-eq : (i j : ℕ) → j ≡ i → points i (some j) ≡ 1
points-eq i j h = ground (arith, ==_iff j i)

module _ (p : Pool) (ls : List Lease) (tally : Tally p ls)
    (few : length ls < 1_000_000_000_000) where
  Tally-acquire : (j : ℕ) → Tally (update_backend acquire_connection j p) (some j ∷ ls)
  Tally-acquire j i b at = elim (update_at acquire_connection j p i b at) [
    | inl (ne, at') ↦ omega (arith, tally i b at', points-ne i j ne)
    | inr (a, e, at', image) ↦ omega (
      arith,
      points-eq i j e,
      tally i a at',
      count-le-length i ls,
      active-acquire a,
      ap (λ (t : Backend). t.active_connections) image,
    )
  ]

  Tally-release :
      (j : ℕ) (ls' : List Lease)
      → ((i : ℕ) → count i ls' + points i (some j) ≡ count i ls)
      → Tally (update_backend release_connection j p) ls'
  Tally-release j ls' fall i b at = elim (update_at release_connection j p i b at) [
    | inl (ne, at') ↦ omega (arith, tally i b at', points-ne i j ne, fall i)
    | inr (a, e, at', image) ↦ omega (
      arith,
      points-eq i j e,
      tally i a at',
      fall i,
      count-le-length i ls,
      active-release a,
      ap (λ (t : Backend). t.active_connections) image,
    )
  ]

  pub Tally-reset :
      (l : Lease) (ls' : List Lease)
      → ((i : ℕ) → count i ls' + points i l ≡ count i ls)
      → Tally (reset_lease l p).0 ls'
  unfolding reset_lease
  Tally-reset none ls' fall = λ i b at. omega (arith, tally i b at, fall i)
  Tally-reset (some j) ls' fall = Tally-release j ls' fall

  pub Tally-new_lease : (l : Lease) → Tally (new_lease l p).0 (l ∷ ls)
  unfolding new_lease
  Tally-new_lease none = λ i b at. omega (arith, tally i b at)
  Tally-new_lease (some j) = Tally-acquire j

  Tally-probe : (j : ℕ) (v : Bool) → Tally (update_backend (λ b. set_healthy b v) j p) ls
  Tally-probe j v i b at = elim (update_at (λ b. set_healthy b v) j p i b at) [
    | inl (ne, at') ↦ tally i b at'
    | inr (a, e, at', image) ↦
        ap (λ (t : Backend). t.active_connections) image ∙ unfold set_healthy in (tally i a at')
  ]

-- Each action, with the lists that it looks up in hand.
module _ (s : System) (v : Counted s) where
  acquire-Counted : suc (length s.leases) < 1_000_000_000_000 → Counted (act s acquires)
  unfolding act
  acquire-Counted room = rw (acquire-selected s.pool) (record {
    counted =
        rw (lease-new_lease (selected s.pool) _)
          (Tally-new_lease _ s.leases v.counted v.bounded (selected s.pool));
    bounded = room;
  })

  destroy-Counted :
      (k : ℕ) (o : Option Lease) → get_elem? s.leases k ≡ o → Counted (destroy_at k o s)
  unfolding destroy_at
  destroy-Counted k none e = v
  destroy-Counted k (some l) e = record {
    counted =
        Tally-reset s.pool s.leases v.counted v.bounded l (remove_at k s.leases)
          (λ i. count-remove_at i k s.leases l e);
    bounded = omega (arith, v.bounded, length-remove_at k s.leases);
  }

  move-Counted :
      (k : ℕ) (o : Option Lease)
      → suc (length s.leases) < 1_000_000_000_000
      → get_elem? s.leases k ≡ o
      → Counted (move_at k o s)
  unfolding move_at
  move-Counted k none room e = v
  move-Counted k (some l) room e = record {
    counted = λ i b at. omega (arith, v.counted i b at, count-set i k s.leases l none e);
    bounded = omega (arith, room, length-set s.leases k none);
  }

  assign-Counted :
      (k m : ℕ) (o r : Option Lease)
      → k ≢ m
      → get_elem? s.leases k ≡ o
      → get_elem? s.leases m ≡ r
      → Counted (assign_at k m o r s)
  unfolding assign_at
  assign-Counted k m none r ne e e' = v
  assign-Counted k m (some this) none ne e e' = v
  assign-Counted k m (some this) (some other) ne e e' = record {
    counted = Tally-reset s.pool s.leases v.counted v.bounded this _ (λ i. omega (
      arith,
      count-set i k s.leases this other e,
      count-set i m (set s.leases k other) other none (get_elem?-set_ne s.leases k m other ne ∙ e'),
    ));
    bounded =
        omega
          (arith, v.bounded, length-set s.leases k other, length-set (set s.leases k other) m none);
  }

-- An action keeps the counts right.
pub act-Counted :
    (s : System) (a : Action)
    → suc (length s.leases) < 1_000_000_000_000
    → Counted s
    → Counted (act s a)
unfolding act
act-Counted s acquires room v = acquire-Counted s v room
act-Counted s (destroys k) room v = destroy-Counted s v k _ refl
act-Counted s (moves k) room v = move-Counted s v k _ room refl
act-Counted s (assigns k m) room v = elim (Bool-cases (k == m)) [
  | inl same ↦ rw same v
  | inr other ↦ rw other (assign-Counted s v k m _ _ (λ e. cc ((==_iff k m).1 e, other)) refl refl)
]
act-Counted s (probes i value) room v = record {
  counted = Tally-probe s.pool s.leases v.counted v.bounded i value;
  bounded = v.bounded;
}
