-- ===== src/Health/Life/Round.antt =====
-- A round of the thread, probe by probe, is `checkOnce` (src/HealthChecker.cpp).
use mathlib.Core.Option
use flux_gate.Base.{
  Option, ℕ, zero, suc, ◌+◌, ◌≡◌, ◌≢◌, refl, sym, ap, ◌∙◌, inl, inr, Bool, true, false, List, [],
  ◌∷◌, length, get_elem?, leb, ltb, ◌==◌, if◌then◌else◌, arith, Bool-cases, Option-cases, ==_iff,
  ==_refl, get_elem?-lt-length,
}
use flux_gate.Backend.{Backend}
use flux_gate.Health.{ProbeState, ProbeStates, Thresholds, probe, check_once}
use flux_gate.Health.Rounds.{view, view-check_once}
use flux_gate.Health.Life.{
  probing, Checker, probe_at, pass_thread, pass, Step, passes, step, run_steps,
}
use flux_gate.Health.Life.Stopped.{length-probe_at, view-probe_at, view-probe_at_ne}

-- `n` probes from the backend of index `i` on.
abbrev probes_from : (ℕ → Bool) → ℕ → ℕ → List Step
probes_from reach i zero = []
probes_from reach i (suc n) = passes (reach i) ∷ probes_from reach (suc i) n

view-past :
    (h : List Backend × ProbeStates) (j : ℕ)
    → leb (length h.0) j ≡ true
    → (f : _) → view h j ≡ Option.map f (view h j)
view-past h j past f = elim (Option-cases (get_elem? h.0 j)) [
  | inl missing ↦ rw missing refl
  | inr (b, at) ↦ absurd (ground (arith, past, get_elem?-lt-length h.0 j b at))
]

module _ (t : Thresholds) (reach : ℕ → Bool) (j : ℕ) where
  abbrev probed_from : ℕ → List Backend × ProbeStates → Option (ProbeState × Bool)
  probed_from i h = if leb i j then Option.map (probe t (reach j)) (view h j) else view h j

  pass-probe_at :
      (i : ℕ) (c : Checker)
      → c.thread ≡ probing i
      → ltb i (length c.health.0) ≡ true
      → pass t (reach i) c
        ≡ record c { thread = probing (suc i); health = probe_at t i (reach i) c.health }
  unfolding pass pass_thread
  pass-probe_at i c e more = rw (e, more) refl

  probed_from-suc :
      (i : ℕ) (h : List Backend × ProbeStates)
      → probed_from (suc i) (probe_at t i (reach i) h) ≡ probed_from i h
  probed_from-suc i h = elim (Bool-cases (i == j)) [
    | inl here ↦
        let e = (==_iff i j).0 here in
        let now : leb i j ≡ true = ground (arith, e) in
        let later : leb (suc i) j ≡ false = ground (arith, e) in
        rw (now, later)
          (ap (view (probe_at t i (reach i) h)) (sym e)
            ∙ view-probe_at t i (reach i) h
            ∙ ap (λ k. Option.map (probe t (reach k)) (view h k)) e)
    | inr other ↦
        let apart : i ≢ j = differ i other in
        let same : leb (suc i) j ≡ leb i j = ground (arith, apart) in
        rw (same, view-probe_at_ne t i j (reach i) h apart) refl
  ]
    where
      differ : (i : ℕ) → (i == j) ≡ false → i ≢ j
      differ i other e = cc (rw (e, ==_refl j) at other)

  probes_from-probed :
      (n i : ℕ) (c : Checker)
      → c.thread ≡ probing i
      → i + n ≡ length c.health.0
      → view (run_steps t (probes_from reach i n) c).health j ≡ probed_from i c.health
  unfolding run_steps step
  probes_from-probed zero i c e size = elim (Bool-cases (leb i j)) [
    | inl past ↦ rw past (view-past c.health j (ground (arith, past, size)) (probe t (reach j)))
    | inr before ↦ rw before refl
  ]
  probes_from-probed (suc n) i c e size =
      let next : Checker = record c {
        thread = probing (suc i);
        health = probe_at t i (reach i) c.health;
      } in
      ap (λ d. view (run_steps t (probes_from reach (suc i) n) d).health j)
        (pass-probe_at i c e (ground (arith, size)))
      ∙ probes_from-probed n (suc i) next refl
          (omega (arith, size, length-probe_at t i (reach i) c.health))
      ∙ probed_from-suc i c.health

  -- The thread's probes of a whole round make of each backend what `checkOnce` makes of it.
  round-check_once :
      (c : Checker)
      → c.thread ≡ probing 0
      → view (run_steps t (probes_from reach 0 (length c.health.0)) c).health j
        ≡ view (check_once t reach c.health) j
  round-check_once c e =
      let all : leb 0 j ≡ true = ground arith in
      probes_from-probed (length c.health.0) 0 c e (omega arith)
      ∙ rw all (sym (view-check_once t reach c.health j))
