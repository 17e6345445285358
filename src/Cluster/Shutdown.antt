-- ===== src/Cluster/Shutdown.antt =====
-- The end of `main` (src/main.cpp): every worker is stopped, then every thread is joined.
use flux_gate.Base.{
  ℕ, zero, suc, ◌+◌, ◌*◌, ◌<◌, ◌≤◌, ◌≡◌, ◌≢◌, refl, sym, ◌∙◌, inl, inr, true, false, List, [], ◌∷◌,
  ◌++◌, some, Option, length, get_elem?-some, ◌==◌, ==_iff, ==_refl, Bool-cases, get_elem?, set,
  length-append, get_elem?-set_self, get_elem?-set_ne, get_elem?-lt-length, length-set, arith,
  word_mod, Option-cases,
}
use mathlib.Core.Path.{subst}
use flux_gate.Metrics.{Metrics}
use flux_gate.Io.{Kernel, IsKernel}
use flux_gate.Pool.{Pool}
use flux_gate.Pool.Leases.{Tally}
use flux_gate.Worker.Queue.{AcceptedClient}
use flux_gate.Worker.Reactor.Served.{occurs}
use flux_gate.Worker.Reactor.Stopped.{shut_down-looping, shut_down-sessions, shut_down-queue}
use flux_gate.Worker.Reactor.{
  Setup, Answer, Waited, Reactor, Action, turns, stops, act, turn, stop, shut_down,
}
use flux_gate.Cluster.Leases.{all_leases}
use flux_gate.Cluster.Ready.{AllNew, AllCounted}
use flux_gate.Cluster.Runs.{run_cluster-count}
use flux_gate.Cluster.{Cluster, lend, ClusterStep, works, step_cluster, run_cluster}

-- The loops over `workers`: an action of each, from index `i` on.
abbrev pub each_from : (ℕ → Action) → ℕ → ℕ → List ClusterStep
each_from a i zero = []
each_from a i (suc n) = works i (a i) ∷ each_from a (suc i) n

-- The last turn of each worker's thread, with what it meets.
abbrev pub last_turn : (ℕ → AcceptedClient → Answer) → (ℕ → Waited) → ℕ → Action
last_turn answers replies j = turns (answers j) (replies j)

-- `main` after its loop, for `n` workers.
unfoldable pub shut_down_steps : (ℕ → AcceptedClient → Answer) → (ℕ → Waited) → ℕ → List ClusterStep
shut_down_steps answers replies n =
    each_from (λ j. stops) 0 n ++ each_from (last_turn answers replies) 0 n

pub some-injective : {A : Type 0} (x y : A) → ◌≡◌ {A = Option A} (some x) (some y) → x ≡ y
some-injective x y h = cc

differ : (i j : ℕ) → (j == i) ≡ false → i ≢ j
differ i j other e = cc (rw (e, ==_refl j) at other)

length-each : (a : ℕ → Action) (n i : ℕ) → length (each_from a i n) ≡ n
length-each a zero i = refl
length-each a (suc n) i = omega (arith, length-each a n (suc i))

length-shut_down_steps :
    (answers : ℕ → AcceptedClient → Answer) (replies : ℕ → Waited) (n : ℕ)
    → length (shut_down_steps answers replies n) ≡ 2 * n
unfolding shut_down_steps
length-shut_down_steps answers replies n = omega (
  arith,
  length-append (each_from (λ j. stops) 0 n) (each_from (last_turn answers replies) 0 n),
  length-each (λ j. stops) n 0,
  length-each (last_turn answers replies) n 0,
)

-- What holds of every worker of a list.
abbrev pub All : {S : Type 0} → (Reactor S → Type 0) → List (Reactor S) → Type 0
All P rs = (j : ℕ) (r : _) → get_elem? rs j ≡ some r → P r

module _ {S : Type 0} (k : Kernel S) (c : Setup) where
  run_cluster-append :
      (xs ys : List ClusterStep) (cl : Cluster S)
      → run_cluster k c (xs ++ ys) cl ≡ run_cluster k c ys (run_cluster k c xs cl)
  unfolding run_cluster
  run_cluster-append [] ys cl = refl
  run_cluster-append (x ∷ xs) ys cl = run_cluster-append xs ys (step_cluster k c x cl)

  step_cluster-at :
      (j : ℕ) (a : Action) (cl : Cluster S) (r : Reactor S)
      → get_elem? cl.reactors j ≡ some r
      → (step_cluster k c (works j a) cl).reactors
        ≡ set cl.reactors j (act k c a (lend cl.pool cl.metrics r))
  unfolding step_cluster
  step_cluster-at j a cl r at = rw (at, step_cluster) refl

  module _ (P Q : Reactor S → Type 0) (a : ℕ → Action)
      (works_well : (j : ℕ) (p : Pool) (m : Metrics) (r : Reactor S)
        → P r
        → Q (act k c (a j) (lend p m r))) where
    -- Those before `i` are done, those from `i` on are not.
    abbrev Halfway : ℕ → List (Reactor S) → Type 0
    Halfway i rs = (j : ℕ) (r : Reactor S) → get_elem? rs j ≡ some r → (j < i → Q r) × (i ≤ j → P r)

    Halfway-other :
        (i j : ℕ) (r : Reactor S)
        → i ≢ j
        → (j < i → Q r) × (i ≤ j → P r)
        → (j < suc i → Q r) × (suc i ≤ j → P r)
    Halfway-other i j r apart h =
        (λ le. h.0 (omega (arith, le, apart)), λ le. h.1 (omega (arith, le)))

    Halfway-same : (i j : ℕ) (r : Reactor S) → j ≡ i → Q r → (j < suc i → Q r) × (suc i ≤ j → P r)
    Halfway-same i j r same done = (λ _. done, λ le. absurd (omega (arith, le, same)))

    Halfway-set :
        (i : ℕ) (rs : List (Reactor S)) (r' : Reactor S)
        → i < length rs
        → Q r'
        → Halfway i rs
        → Halfway (suc i) (set rs i r')
    Halfway-set i rs r' lt done h j r at = elim (Bool-cases (j == i)) [
      | inl here ↦
          let same = (==_iff j i).0 here in
          let there : get_elem? (set rs i r') j ≡ some r' =
            rw same (get_elem?-set_self rs i r' lt) in
          let e : r' ≡ r = some-injective r' r (sym there ∙ at) in
          Halfway-same i j r same (subst Q e done)
      | inr other ↦
          let apart = differ i j other in
          Halfway-other i j r apart (h j r (sym (get_elem?-set_ne rs i j r' apart) ∙ at))
    ]

    each_from-All :
        (n i : ℕ) (cl : Cluster S)
        → i + n ≡ length cl.reactors
        → Halfway i cl.reactors
        → All Q (run_cluster k c (each_from a i n) cl).reactors
    unfolding run_cluster
    each_from-All zero i cl e h =
        λ j r at. (h j r at).0 (omega (arith, e, get_elem?-lt-length cl.reactors j r at))
    each_from-All (suc n) i cl e h =
        let lt : i < length cl.reactors = omega (arith, e) in
        let (r, at) = get_elem?-some cl.reactors i lt in
        let r' = act k c (a i) (lend cl.pool cl.metrics r) in
        let that = step_cluster-at i (a i) cl r at in
        each_from-All n (suc i) (step_cluster k c (works i (a i)) cl)
          (rw that (omega (arith, e, length-set cl.reactors i r')))
          (rw that (
            Halfway-set i cl.reactors r' lt
              (works_well i cl.pool cl.metrics r ((h i r at).1 (omega arith))) h))

-- A worker whose thread is told to end, and one whose thread has ended.
abbrev pub IsEnding : {S : Type 0} → Reactor S → Type 0
IsEnding r = (r.looping ≡ true) × (r.inbox.running ≡ false)

abbrev pub IsEnded : {S : Type 0} → Reactor S → Type 0
IsEnded r = (r.worker.sessions ≡ []) × (r.inbox.queue ≡ []) × (r.looping ≡ false)

module _ {S : Type 0} (k : Kernel S) (c : Setup) where
  stops-IsEnding :
      (j : ℕ) (p : Pool) (m : Metrics) (r : Reactor S)
      → r.looping ≡ true
      → IsEnding (act k c stops (lend p m r))
  unfolding act stop
  stops-IsEnding j p m r on = (on, refl)

  turn-IsEnded :
      (answers : AcceptedClient → Answer) (reply : Waited) (r : Reactor S)
      → IsEnding r
      → IsEnded (turn k c answers reply r)
  unfolding turn
  turn-IsEnded answers reply r h =
      let ended : turn k c answers reply r ≡ shut_down k c answers r = rw (h.0, h.1, turn) refl in
      rw ended (
        shut_down-sessions k c answers r,
        shut_down-queue k c answers r,
        shut_down-looping k c answers r,
      )

  length-step_cluster :
      (j : ℕ) (a : Action) (cl : Cluster S)
      → length (step_cluster k c (works j a) cl).reactors ≡ length cl.reactors
  unfolding step_cluster
  length-step_cluster j a cl = elim (Option-cases (get_elem? cl.reactors j)) [
    | inl missing ↦ rw (missing, step_cluster) refl
    | inr (r, at) ↦
        rw (at, step_cluster) (length-set cl.reactors j (act k c a (lend cl.pool cl.metrics r)))
  ]

  length-each_from :
      (a : ℕ → Action) (n i : ℕ) (cl : Cluster S)
      → length (run_cluster k c (each_from a i n) cl).reactors ≡ length cl.reactors
  unfolding run_cluster
  length-each_from a zero i cl = refl
  length-each_from a (suc n) i cl =
      length-each_from a n (suc i) (step_cluster k c (works i (a i)) cl)
      ∙ length-step_cluster i (a i) cl

  -- Every worker of the list, after both loops.
  pub shut_down_steps-All :
      (answers : ℕ → AcceptedClient → Answer) (replies : ℕ → Waited) (n : ℕ) (cl : Cluster S)
      → n ≡ length cl.reactors
      → All (λ r. r.looping ≡ true) cl.reactors
      → All IsEnded (run_cluster k c (shut_down_steps answers replies n) cl).reactors
  unfolding shut_down_steps act
  shut_down_steps-All answers replies n cl e on =
      let told = run_cluster k c (each_from (λ j. stops) 0 n) cl in
      let ending : All IsEnding told.reactors =
        each_from-All k c (λ r. r.looping ≡ true) IsEnding (λ j. stops) stops-IsEnding n 0 cl
          (omega (arith, e)) (λ j r at. (λ lt. absurd (omega (arith, lt)), λ _. on j r at)) in
      rw
        (run_cluster-append k c (each_from (λ j. stops) 0 n)
          (each_from (last_turn answers replies) 0 n) cl)
        (each_from-All k c IsEnding IsEnded (last_turn answers replies)
          (λ j p m r h. turn-IsEnded (answers j) (replies j) (lend p m r) h) n 0 told
          (omega (arith, e, length-each_from (λ j. stops) n 0 cl))
          (λ j r at. (λ lt. absurd (omega (arith, lt)), λ _. ending j r at)))

module _ {S : Type 0} where
  All-tail :
      (P : Reactor S → Type 0) (r : Reactor S) (rs : List (Reactor S)) → All P (r ∷ rs) → All P rs
  All-tail P r rs h j q at = h (suc j) q at

  All-all_leases : (rs : List (Reactor S)) → All IsEnded rs → all_leases rs ≡ []
  All-all_leases [] h = refl
  All-all_leases (r ∷ rs) h = rw ((h 0 r refl).0, All-all_leases rs (All-tail IsEnded r rs h)) refl

  -- Every descriptor that the worker has taken is closed, each as often as it was taken.
  abbrev pub IsReleased : Reactor S → Type 0
  IsReleased r = (f : ℕ) → occurs f r.worker.closed ≡ occurs f r.worker.taken

  ended-IsReleased : (rs : List (Reactor S)) → All IsEnded rs → AllCounted rs → All IsReleased rs
  ended-IsReleased [] h counted j q at = cc
  ended-IsReleased (r ∷ rs) h counted zero q at =
      let e : q ≡ r = cc at in
      rw e (λ f. let kept = counted.0.1 f in omega (arith, rw (h 0 r refl).0 at kept))
  ended-IsReleased (r ∷ rs) h counted (suc j) q at =
      ended-IsReleased rs (All-tail IsEnded r rs h) counted.1 j q at

module _ {S : Type 0} (k : Kernel S) (c : Setup) (answers : ℕ → AcceptedClient → Answer)
    (replies : ℕ → Waited) (steps : List ClusterStep) (cl : Cluster S) where
  -- The workers when `main` leaves its loop, and when it has joined them.
  abbrev pub at_end : Cluster S
  at_end = run_cluster k c steps cl

  abbrev pub joined : Cluster S
  joined = run_cluster k c (shut_down_steps answers replies (length at_end.reactors)) at_end

  -- On a lawful kernel, with buffers of fewer than 2 ^ 64 bytes, from new workers and a pool
  -- without active connections, after steps in any order of the workers and the checker, when the
  -- thread of every worker still loops: once `main` has stopped all workers and each thread has
  -- made its last turn, whatever it meets, every worker has ended its loop with no session and no
  -- waiting client, has closed each descriptor as often as it was taken, and no backend's active
  -- count holds a connection; the steps and two for each worker are fewer than 10 ^ 12.
  pub shut_down_steps-release :
      IsKernel k
      → c.buffer_size < word_mod
      → length steps + 2 * length at_end.reactors < 1_000_000_000_000
      → AllNew cl.reactors
      → Tally cl.pool []
      → All (λ r. r.looping ≡ true) at_end.reactors
      → All IsEnded joined.reactors × All IsReleased joined.reactors × Tally joined.pool []
  shut_down_steps-release law fits small new idle on =
      let n = length at_end.reactors in
      let ended = shut_down_steps-All k c answers replies n at_end refl on in
      let h =
        run_cluster-count k law c fits (steps ++ shut_down_steps answers replies n) cl
          (omega (
            arith,
            small,
            length-append steps (shut_down_steps answers replies n),
            length-shut_down_steps answers replies n,
          ))
          new idle in
      let (tally, counted) =
        rw (run_cluster-append k c steps (shut_down_steps answers replies n) cl) at h in
      (
        ended,
        ended-IsReleased joined.reactors ended counted,
        rw (All-all_leases joined.reactors ended) at tally,
      )
