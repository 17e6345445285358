-- ===== src/Health/Hysteresis.antt =====
-- One backend under the probes of `checkOnce` (src/HealthChecker.cpp).
use flux_gate.Base.{
  ℕ, zero, suc, ◌+◌, ◌≤◌, ◌<◌, ◌≡◌, refl, ap, ◌∙◌, inl, inr, Bool, true, false, not, ◌&&◌, List, [],
  ◌∷◌, length, replicate, leb, ltb, ltb→lt, ltb→le, if◌then◌else◌, arith, word_mod, add64, add64-eq,
  Bool-cases,
}
use flux_gate.Health.{ProbeState, Thresholds, probe}

-- A history of probe results, oldest first.
unfoldable pub probe_all : Thresholds → List Bool → ProbeState × Bool → ProbeState × Bool
probe_all t [] m = m
probe_all t (r ∷ rs) m = probe_all t rs (probe t r m)

-- No run of failures in the history, with `n` failures before it, reaches `limit`.
abbrev pub FailuresBelow : ℕ → ℕ → List Bool → Type 0
FailuresBelow limit n [] = n < limit
FailuresBelow limit n (true ∷ rs) = (n < limit) × FailuresBelow limit 0 rs
FailuresBelow limit n (false ∷ rs) = FailuresBelow limit (suc n) rs

abbrev pub SuccessesBelow : ℕ → ℕ → List Bool → Type 0
SuccessesBelow limit n [] = n < limit
SuccessesBelow limit n (false ∷ rs) = (n < limit) × SuccessesBelow limit 0 rs
SuccessesBelow limit n (true ∷ rs) = SuccessesBelow limit (suc n) rs

module _ (t : Thresholds) where
  FailuresBelow-start :
      (rs : List Bool) (n : ℕ) → FailuresBelow t.failure_threshold n rs → n < t.failure_threshold
  FailuresBelow-start [] n h = h
  FailuresBelow-start (true ∷ rs) n h = h.0
  FailuresBelow-start (false ∷ rs) n h = omega (arith, FailuresBelow-start rs (suc n) h)

  SuccessesBelow-start :
      (rs : List Bool) (n : ℕ) → SuccessesBelow t.success_threshold n rs → n < t.success_threshold
  SuccessesBelow-start [] n h = h
  SuccessesBelow-start (false ∷ rs) n h = h.0
  SuccessesBelow-start (true ∷ rs) n h = omega (arith, SuccessesBelow-start rs (suc n) h)

  failed : ProbeState → ProbeState
  failed s = record { consecutive_failures = suc s.consecutive_failures; consecutive_successes = 0 }

  succeeded : ProbeState → ProbeState
  succeeded s = record {
    consecutive_failures = 0;
    consecutive_successes = suc s.consecutive_successes;
  }

  -- One probe, without the wrap-around of the counters.
  probe-failed :
      (s : ProbeState) (up : Bool)
      → suc s.consecutive_failures < word_mod
      → probe t false (s, up) ≡ (
        failed s,
        (if up && leb t.failure_threshold (suc s.consecutive_failures) then false else up),
      )
  unfolding probe failed
  probe-failed s up h =
      let e : add64 s.consecutive_failures 1 ≡ suc s.consecutive_failures =
        add64-eq _ _ (omega arith) ∙ omega arith in
      rw e

  probe-succeeded :
      (s : ProbeState) (up : Bool)
      → suc s.consecutive_successes < word_mod
      → probe t true (s, up) ≡ (
        succeeded s,
        (if not up && leb t.success_threshold (suc s.consecutive_successes) then true else up),
      )
  unfolding probe succeeded
  probe-succeeded s up h =
      let e : add64 s.consecutive_successes 1 ≡ suc s.consecutive_successes =
        add64-eq _ _ (omega arith) ∙ omega arith in
      rw e

  leb-false : (a b : ℕ) → b < a → leb a b ≡ false
  leb-false a b h = ground arith

  -- The branches of a probe.
  module _ (s : ProbeState) where
    probe_keeps_up :
        suc s.consecutive_failures < word_mod
        → suc s.consecutive_failures < t.failure_threshold
        → probe t false (s, true) ≡ (failed s, true)
    probe_keeps_up w h = probe-failed s true w ∙ rw (leb-false _ _ h)

    probe_takes_down :
        suc s.consecutive_failures < word_mod
        → t.failure_threshold ≤ suc s.consecutive_failures
        → probe t false (s, true) ≡ (failed s, false)
    probe_takes_down w h = probe-failed s true w ∙ ground arith

    probe_keeps_down :
        suc s.consecutive_successes < word_mod
        → suc s.consecutive_successes < t.success_threshold
        → probe t true (s, false) ≡ (succeeded s, false)
    probe_keeps_down w h = probe-succeeded s false w ∙ rw (leb-false _ _ h)

    probe_brings_up :
        suc s.consecutive_successes < word_mod
        → t.success_threshold ≤ suc s.consecutive_successes
        → probe t true (s, false) ≡ (succeeded s, true)
    probe_brings_up w h = probe-succeeded s false w ∙ ground arith

  after_step :
      (rs : List Bool) (r : Bool) (m m' : ProbeState × Bool) (up : Bool)
      → probe t r m ≡ m'
      → (probe_all t rs m').1 ≡ up
      → (probe_all t (r ∷ rs) m).1 ≡ up
  unfolding probe_all
  after_step rs r m m' up e h = ap (λ (k : ProbeState × Bool). (probe_all t rs k).1) e ∙ h

  failure_stays_down :
      (n : ℕ) (s : ProbeState) → (probe_all t (replicate n false) (s, false)).1 ≡ false
  unfolding probe_all probe
  failure_stays_down zero s = refl
  failure_stays_down (suc n) s = failure_stays_down n _

  success_stays_up : (n : ℕ) (s : ProbeState) → (probe_all t (replicate n true) (s, true)).1 ≡ true
  unfolding probe_all probe
  success_stays_up zero s = refl
  success_stays_up (suc n) s = success_stays_up n _

  -- While the counter cannot pass 2 ^ 64 and no run of failures (with those counted before)
  -- reaches the threshold, a healthy backend stays healthy.
  pub probe_all_stays_up :
      (rs : List Bool) (s : ProbeState)
      → s.consecutive_failures + length rs < word_mod
      → FailuresBelow t.failure_threshold s.consecutive_failures rs
      → (probe_all t rs (s, true)).1 ≡ true
  unfolding probe_all probe failed
  probe_all_stays_up [] s small h = refl
  probe_all_stays_up (true ∷ rs) s small h = probe_all_stays_up rs _ (omega arith) h.1
  probe_all_stays_up (false ∷ rs) s small h =
      after_step rs false (s, true) (failed s, true) true
        (probe_keeps_up s (omega arith) (FailuresBelow-start rs _ h))
        (probe_all_stays_up rs (failed s) (omega arith) h)

  -- While the counter cannot pass 2 ^ 64 and no run of successes (with those counted before)
  -- reaches the threshold, an unhealthy backend stays unhealthy.
  pub probe_all_stays_down :
      (rs : List Bool) (s : ProbeState)
      → s.consecutive_successes + length rs < word_mod
      → SuccessesBelow t.success_threshold s.consecutive_successes rs
      → (probe_all t rs (s, false)).1 ≡ false
  unfolding probe_all probe succeeded
  probe_all_stays_down [] s small h = refl
  probe_all_stays_down (false ∷ rs) s small h = probe_all_stays_down rs _ (omega arith) h.1
  probe_all_stays_down (true ∷ rs) s small h =
      after_step rs true (s, false) (succeeded s, false) false
        (probe_keeps_down s (omega arith) (SuccessesBelow-start rs _ h))
        (probe_all_stays_down rs (succeeded s) (omega arith) h)

  failures_take_down :
      (n : ℕ) (s : ProbeState)
      → s.consecutive_failures + suc n < word_mod
      → t.failure_threshold ≤ s.consecutive_failures + suc n
      → (probe_all t (replicate (suc n) false) (s, true)).1 ≡ false
  unfolding failed
  failures_take_down zero s small h =
      after_step [] false (s, true) (failed s, false) false
        (probe_takes_down s (omega arith) (omega arith)) (failure_stays_down zero (failed s))
  failures_take_down (suc n) s small h =
      elim (Bool-cases (ltb (suc s.consecutive_failures) t.failure_threshold)) [
        | inr reached ↦
            after_step (replicate (suc n) false) false (s, true) (failed s, false) false
              (probe_takes_down s (omega arith) (ltb→le _ _ reached))
              (failure_stays_down (suc n) (failed s))
        | inl below ↦
            after_step (replicate (suc n) false) false (s, true) (failed s, true) false
              (probe_keeps_up s (omega arith) (ltb→lt _ _ below))
              (failures_take_down n (failed s) (omega arith) (omega arith))
      ]

  successes_bring_up :
      (n : ℕ) (s : ProbeState)
      → s.consecutive_successes + suc n < word_mod
      → t.success_threshold ≤ s.consecutive_successes + suc n
      → (probe_all t (replicate (suc n) true) (s, false)).1 ≡ true
  unfolding succeeded
  successes_bring_up zero s small h =
      after_step [] true (s, false) (succeeded s, true) true
        (probe_brings_up s (omega arith) (omega arith)) (success_stays_up zero (succeeded s))
  successes_bring_up (suc n) s small h =
      elim (Bool-cases (ltb (suc s.consecutive_successes) t.success_threshold)) [
        | inr reached ↦
            after_step (replicate (suc n) true) true (s, false) (succeeded s, true) true
              (probe_brings_up s (omega arith) (ltb→le _ _ reached))
              (success_stays_up (suc n) (succeeded s))
        | inl below ↦
            after_step (replicate (suc n) true) true (s, false) (succeeded s, false) true
              (probe_keeps_down s (omega arith) (ltb→lt _ _ below))
              (successes_bring_up n (succeeded s) (omega arith) (omega arith))
      ]

  -- While the counter cannot pass 2 ^ 64, a run of failures, at least one, as long as the
  -- threshold leaves a backend unhealthy, whatever its state was.
  pub probe_all_down :
      (n : ℕ) (s : ProbeState) (up : Bool)
      → s.consecutive_failures + suc n < word_mod
      → t.failure_threshold ≤ suc n
      → (probe_all t (replicate (suc n) false) (s, up)).1 ≡ false
  probe_all_down n s true small h = failures_take_down n s small (omega arith)
  probe_all_down n s false small h = failure_stays_down (suc n) s

  -- While the counter cannot pass 2 ^ 64, a run of successes, at least one, as long as the
  -- threshold leaves a backend healthy, whatever its state was.
  pub probe_all_up :
      (n : ℕ) (s : ProbeState) (up : Bool)
      → s.consecutive_successes + suc n < word_mod
      → t.success_threshold ≤ suc n
      → (probe_all t (replicate (suc n) true) (s, up)).1 ≡ true
  probe_all_up n s false small h = successes_bring_up n s small (omega arith)
  probe_all_up n s true small h = success_stays_up (suc n) s
