-- ===== src/Cluster/Leases.antt =====
-- The leases and the queues of the workers of src/main.cpp, one worker set apart.
use flux_gate.Base.{
  ℕ, zero, suc, ◌+◌, ◌≡◌, refl, sym, ap, ◌∙◌, List, [], ◌∷◌, some, length, get_elem?, set, arith,
}
use flux_gate.Pool.{Pool, Lease}
use flux_gate.Pool.System.{count}
use flux_gate.Pool.Leases.{Tally}
use flux_gate.Session.State.{Session}
use flux_gate.Worker.Books.{leases, length-leases}
use flux_gate.Worker.Reactor.{Reactor}

count-leases :
    (i : ℕ) (others : List Lease) (ss : List Session)
    → count i (leases others ss) ≡ count i others + count i (leases [] ss)
count-leases i others [] = omega arith
count-leases i others (s ∷ ss) = omega (arith, count-leases i others ss)

module _ {S : Type 0} where
  -- The leases of all workers, and of all but one.
  abbrev pub all_leases : List (Reactor S) → List Lease
  all_leases [] = []
  all_leases (r ∷ rs) = leases (all_leases rs) r.worker.sessions

  abbrev pub other_leases : ℕ → List (Reactor S) → List Lease
  other_leases j [] = []
  other_leases zero (r ∷ rs) = all_leases rs
  other_leases (suc j) (r ∷ rs) = leases (other_leases j rs) r.worker.sessions

  -- The clients that wait for all workers, and for all but one.
  abbrev pub all_queued : List (Reactor S) → ℕ
  all_queued [] = 0
  all_queued (r ∷ rs) = length r.inbox.queue + all_queued rs

  abbrev pub other_queued : ℕ → List (Reactor S) → ℕ
  other_queued j [] = 0
  other_queued zero (r ∷ rs) = all_queued rs
  other_queued (suc j) (r ∷ rs) = length r.inbox.queue + other_queued j rs

  -- The worker at a place, taken apart from the others.
  pub count-all_leases :
      (i j : ℕ) (rs : List (Reactor S)) (r : Reactor S)
      → get_elem? rs j ≡ some r
      → count i (leases (other_leases j rs) r.worker.sessions) ≡ count i (all_leases rs)
  count-all_leases i j [] r at = cc
  count-all_leases i zero (q ∷ rs) r at = let e : q ≡ r = cc at in rw e refl
  count-all_leases i (suc j) (q ∷ rs) r at =
      let more = count-all_leases i j rs r at in
      omega (
        arith,
        more,
        count-leases i (leases (other_leases j rs) q.worker.sessions) r.worker.sessions,
        count-leases i (other_leases j rs) r.worker.sessions,
        count-leases i (other_leases j rs) q.worker.sessions,
        count-leases i (all_leases rs) q.worker.sessions,
      )

  pub length-all_leases :
      (j : ℕ) (rs : List (Reactor S)) (r : Reactor S)
      → get_elem? rs j ≡ some r
      → length r.worker.sessions + length (other_leases j rs) ≡ length (all_leases rs)
  length-all_leases j [] r at = cc
  length-all_leases zero (q ∷ rs) r at =
      let e : q ≡ r = cc at in rw e (sym (length-leases (all_leases rs) r.worker.sessions))
  length-all_leases (suc j) (q ∷ rs) r at = omega (
    arith,
    length-all_leases j rs r at,
    length-leases (other_leases j rs) q.worker.sessions,
    length-leases (all_leases rs) q.worker.sessions,
  )

  pub all_queued-at :
      (j : ℕ) (rs : List (Reactor S)) (r : Reactor S)
      → get_elem? rs j ≡ some r
      → length r.inbox.queue + other_queued j rs ≡ all_queued rs
  all_queued-at j [] r at = cc
  all_queued-at zero (q ∷ rs) r at = let e : q ≡ r = cc at in rw e refl
  all_queued-at (suc j) (q ∷ rs) r at = omega (arith, all_queued-at j rs r at)

  -- A change of one worker is none of the others.
  pub other_leases-set :
      (j : ℕ) (rs : List (Reactor S)) (r : Reactor S)
      → other_leases j (set rs j r) ≡ other_leases j rs
  other_leases-set j [] r = refl
  other_leases-set zero (q ∷ rs) r = refl
  other_leases-set (suc j) (q ∷ rs) r =
      ap (λ others. leases others q.worker.sessions) (other_leases-set j rs r)

  pub other_queued-set :
      (j : ℕ) (rs : List (Reactor S)) (r : Reactor S)
      → other_queued j (set rs j r) ≡ other_queued j rs
  other_queued-set j [] r = refl
  other_queued-set zero (q ∷ rs) r = refl
  other_queued-set (suc j) (q ∷ rs) r = ap (λ n. length q.inbox.queue + n) (other_queued-set j rs r)

pub Tally-count :
    (p : Pool) (ls ls' : List Lease)
    → ((i : ℕ) → count i ls ≡ count i ls')
    → Tally p ls
    → Tally p ls'
Tally-count p ls ls' e h i b at = h i b at ∙ e i
