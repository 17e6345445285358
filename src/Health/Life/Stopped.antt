-- ===== src/Health/Life/Stopped.antt =====
-- The checker of src/HealthChecker.cpp once `stop` has been called.
use mathlib.Core.Option
use flux_gate.Base.{
  ℕ, suc, ◌≡◌, ◌≢◌, ◌⊎◌, refl, sym, ap, ◌∙◌, inl, inr, Bool, true, false, List, [], ◌∷◌, none, some,
  length, get_elem?, set, ltb, leb, ◌==◌, arith, Bool-cases, Option-cases, ==_iff, ==_refl,
  length-set, get_elem?-set_self, get_elem?-set_ne, get_elem?-lt-length,
}
use flux_gate.Backend.{Backend, set_healthy}
use flux_gate.Health.{ProbeStates, Thresholds, probe, store}
use flux_gate.Health.Rounds.{view}
use flux_gate.Health.Life.{
  Thread, no_thread, probing, looping, ended, Checker, stop, join, join_thread, probe_at,
  pass_thread, pass, Step, starts, stops, joins, passes, step, run_steps,
}

-- No call of `start`.
abbrev pub NoStart : List Step → Type 0
NoStart [] = Unit {0}
NoStart (starts ∷ ss) = ⊥
NoStart (stops ∷ ss) = NoStart ss
NoStart (joins ∷ ss) = NoStart ss
NoStart (passes reachable ∷ ss) = NoStart ss

-- The round under way has not reached the backend of index `j`.
abbrev pub due : Thread → ℕ → Bool
due no_thread j = false
due (probing i) j = leb i j
due looping j = false
due ended j = false

module _ (t : Thresholds) where
  module _ (i : ℕ) (a : Bool) (bs : List Backend) (states : ProbeStates) where
    probe_at_missing : get_elem? bs i ≡ none → probe_at t i a (bs, states) ≡ (bs, states)
    unfolding probe_at
    probe_at_missing missing = rw (missing, probe_at) refl

    probe_at_found :
        (b : Backend)
        → get_elem? bs i ≡ some b
        → probe_at t i a (bs, states) ≡ (
          set bs i (set_healthy b (probe t a (states i, b.healthy)).1),
          store states i (probe t a (states i, b.healthy)).0,
        )
    unfolding probe_at
    probe_at_found b at = rw (at, probe_at) refl

  pub length-probe_at :
      (i : ℕ) (a : Bool) (h : List Backend × ProbeStates) → length (probe_at t i a h).0 ≡ length h.0
  length-probe_at i a (bs, states) = elim (Option-cases (get_elem? bs i)) [
    | inl missing ↦ rw (probe_at_missing i a bs states missing) refl
    | inr (b, at) ↦ rw (probe_at_found i a bs states b at) (length-set bs i _)
  ]

  pub view-probe_at :
      (i : ℕ) (a : Bool) (h : List Backend × ProbeStates)
      → view (probe_at t i a h) i ≡ Option.map (probe t a) (view h i)
  unfolding set_healthy
  view-probe_at i a (bs, states) = elim (Option-cases (get_elem? bs i)) [
    | inl missing ↦ rw (probe_at_missing i a bs states missing, missing) refl
    | inr (b, at) ↦
        let here =
          get_elem?-set_self bs i (set_healthy b (probe t a (states i, b.healthy)).1)
            (get_elem?-lt-length bs i b at) in
        rw (probe_at_found i a bs states b at, here, at, ==_refl i) refl
  ]

  pub view-probe_at_ne :
      (i j : ℕ) (a : Bool) (h : List Backend × ProbeStates)
      → i ≢ j
      → view (probe_at t i a h) j ≡ view h j
  view-probe_at_ne i j a (bs, states) apart = elim (Option-cases (get_elem? bs i)) [
    | inl missing ↦ rw (probe_at_missing i a bs states missing) refl
    | inr (b, at) ↦
        let there =
          get_elem?-set_ne bs i j (set_healthy b (probe t a (states i, b.healthy)).1) apart in
        let other : (j == i) ≡ false = ground (arith, apart) in
        elim (Option-cases (get_elem? bs j)) [
          | inl past ↦ rw (probe_at_found i a bs states b at, there, past) refl
          | inr (c, at_j) ↦ rw (probe_at_found i a bs states b at, there, at_j, other) refl
        ]
  ]

  -- From `c0` to `c`: the backend of index `j` is as it was, and due only if it was due; or it was
  -- due and has been probed once.
  module _ (c0 : Checker) (j : ℕ) where
    abbrev AtMostOnce : Checker → Type 0
    AtMostOnce c =
        ((view c.health j ≡ view c0.health j) × (due c.thread j ≡ true → due c0.thread j ≡ true))
        ⊎ ((due c0.thread j ≡ true)
            × (due c.thread j ≡ false)
            × ((a : Bool) × (view c.health j ≡ Option.map (probe t a) (view c0.health j))))

    record IsStopped (c : Checker) : Type 0 where
      off : c.running ≡ false
      size : length c.health.0 ≡ length c0.health.0
      once : AtMostOnce c

    -- A step after which nothing is due.
    idle-AtMostOnce :
        (a : Thread) (c : Checker)
        → due a j ≡ false
        → AtMostOnce c
        → AtMostOnce (record c { thread = a })
    idle-AtMostOnce a c idle (inl (same, d)) = inl (same, λ e. cc (e, idle))
    idle-AtMostOnce a c idle (inr (was, d, o)) = inr (was, idle, o)

    join_thread-IsStopped :
        (a : Thread) (c : Checker) → c.thread ≡ a → IsStopped c → IsStopped (join_thread a c)
    unfolding join_thread
    join_thread-IsStopped no_thread c e q = q
    join_thread-IsStopped (probing i) c e q = q
    join_thread-IsStopped looping c e q = q
    join_thread-IsStopped ended c e q = record {
      off = q.off;
      size = q.size;
      once = idle-AtMostOnce no_thread c refl q.once;
    }

    probe_at-AtMostOnce :
        (i : ℕ) (a : Bool) (c : Checker)
        → c.thread ≡ probing i
        → AtMostOnce c
        → AtMostOnce (record c { thread = probing (suc i); health = probe_at t i a c.health })
    probe_at-AtMostOnce i a c e o = elim (Bool-cases (i == j)) [
      | inl here ↦ mine ((==_iff i j).0 here) o
      | inr other ↦ others (differ other) o
    ]
      where
        differ : (i == j) ≡ false → i ≢ j
        differ other e = cc (rw (e, ==_refl j) at other)

        later : leb (suc i) j ≡ true → leb i j ≡ true
        later h = ground (arith, h)

        passed : i ≡ j → leb (suc i) j ≡ false
        passed h = ground (arith, h)

        reached : i ≡ j → leb i j ≡ true
        reached h = ground (arith, h)

        earlier : leb i j ≡ false → leb (suc i) j ≡ false
        earlier h = ground (arith, h)

        mine :
            i ≡ j
            → AtMostOnce c
            → AtMostOnce (record c { thread = probing (suc i); health = probe_at t i a c.health })
        mine at (inl (same, d)) = inr (
          d (ap (λ th. due th j) e ∙ reached at),
          passed at,
          (
            a,
            ap (view (probe_at t i a c.health)) (sym at)
                ∙ view-probe_at i a c.health
                ∙ ap (λ k. Option.map (probe t a) (view c.health k)) at
                ∙ ap (Option.map (probe t a)) same,
          ),
        )
        mine at (inr (was, d, o)) = absurd (cc (sym (ap (λ th. due th j) e) ∙ d, reached at))

        others :
            i ≢ j
            → AtMostOnce c
            → AtMostOnce (record c { thread = probing (suc i); health = probe_at t i a c.health })
        others apart (inl (same, d)) =
            inl (
              view-probe_at_ne i j a c.health apart ∙ same,
              λ h. d (ap (λ th. due th j) e ∙ later h),
            )
        others apart (inr (was, d, (b, o))) = inr (
          was,
          earlier (sym (ap (λ th. due th j) e) ∙ d),
          (b, view-probe_at_ne i j a c.health apart ∙ o),
        )

    pass_thread-IsStopped :
        (a : Bool) (th : Thread) (c : Checker)
        → c.thread ≡ th
        → IsStopped c
        → IsStopped (pass_thread t a th c)
    unfolding pass_thread
    pass_thread-IsStopped a no_thread c e q = q
    pass_thread-IsStopped a (probing i) c e q = elim (Bool-cases (ltb i (length c.health.0))) [
      | inl more ↦ rw more (record {
        off = q.off;
        size = length-probe_at i a c.health ∙ q.size;
        once = probe_at-AtMostOnce i a c e q.once;
      })
      | inr last ↦
          rw last
            (record { off = q.off; size = q.size; once = idle-AtMostOnce looping c refl q.once })
    ]
    pass_thread-IsStopped a looping c e q =
        rw (q.off)
          (record { off = refl; size = q.size; once = idle-AtMostOnce ended c refl q.once })
    pass_thread-IsStopped a ended c e q = q

    run_steps-IsStopped :
        (ss : List Step) (c : Checker) → NoStart ss → IsStopped c → IsStopped (run_steps t ss c)
    unfolding run_steps step stop join pass
    run_steps-IsStopped [] c n q = q
    run_steps-IsStopped (starts ∷ ss) c n q = absurd n
    run_steps-IsStopped (stops ∷ ss) c n q =
        run_steps-IsStopped ss (stop c) n (record { off = refl; size = q.size; once = q.once })
    run_steps-IsStopped (joins ∷ ss) c n q =
        run_steps-IsStopped ss (join c) n (join_thread-IsStopped c.thread c refl q)
    run_steps-IsStopped (passes a ∷ ss) c n q =
        run_steps-IsStopped ss (pass t a c) n (pass_thread-IsStopped a c.thread c refl q)

  -- Whatever follows the call of `stop`, a backend is probed at most once more.
  pub stop-AtMostOnce :
      (ss : List Step) (c : Checker) (j : ℕ)
      → NoStart ss
      → AtMostOnce c j (run_steps t ss (stop c))
        × (length (run_steps t ss (stop c)).health.0 ≡ length c.health.0)
        × ((run_steps t ss (stop c)).running ≡ false)
  unfolding stop
  stop-AtMostOnce ss c j n =
      let q =
        run_steps-IsStopped c j ss (stop c) n
          (record { off = refl; size = refl; once = inl (refl, λ d. d) }) in
      (q.once, q.size, q.off)
