-- ===== src/Health/Rounds.antt =====
-- The rounds of src/HealthChecker.cpp, seen one backend at a time.
use mathlib.Core.Option
use mathlib.Core.List.{map}
use flux_gate.Base.{
  ℕ, zero, suc, ◌+◌, ◌<◌, ◌≡◌, refl, ap, ◌∙◌, inl, inr, Bool, not, List, [], ◌∷◌, Option, none,
  some, get_elem?, if◌then◌else◌, arith, Bool-cases, Option-cases, ==_refl,
}
use flux_gate.Backend.{Backend}
use flux_gate.Health.{
  ProbeState, ProbeStates, Thresholds, store, probe, check_from, check_once, Round, run_rounds,
  run_checker,
}
use flux_gate.Health.Hysteresis.{probe_all}

abbrev Machine : Type 0
Machine = ProbeState × Bool

abbrev view_at : ProbeStates → ℕ → Option Backend → Option Machine
view_at states k none = none
view_at states k (some b) = some (states k, b.healthy)

-- The probe state and health of the backend at an index.
abbrev pub view : List Backend × ProbeStates → ℕ → Option (ProbeState × Bool)
view m j = view_at m.1 j (get_elem? m.0 j)

store_ne : (st : ProbeStates) (i k : ℕ) (s : ProbeState) → (k ≡ i → ⊥) → store st i s k ≡ st k
store_ne st i k s h = ground (arith, h)

module _ (t : Thresholds) (reach : ℕ → Bool) where
  check_from_below :
      (bs : List Backend) (i k : ℕ) (st : ProbeStates)
      → k < i
      → (check_from t reach i bs st).1 k ≡ st k
  unfolding check_from
  check_from_below [] i k st h = refl
  check_from_below (b ∷ bs) i k st h =
      check_from_below bs (suc i) k _ (omega arith) ∙ store_ne st i k _ (λ e. omega arith)

  store_self : (st : ProbeStates) (i : ℕ) (s : ProbeState) → store st i s i ≡ s
  store_self st i s = ground (arith, ==_refl i)

  view_at-check_from :
      (bs : List Backend) (i j k : ℕ) (st : ProbeStates)
      → k ≡ i + j
      → view_at (check_from t reach i bs st).1 k (get_elem? (check_from t reach i bs st).0 j)
        ≡ Option.map (probe t (reach k)) (view_at st k (get_elem? bs j))
  unfolding check_from
  view_at-check_from [] i j k st e = refl
  view_at-check_from (b ∷ bs) i zero k st e =
      let m : Machine = probe t (reach i) (st i, b.healthy) in
      let same : k ≡ i = omega arith in
      rw same (
        ap {B = Option Machine} (λ s. some (s, m.1))
          (check_from_below bs (suc i) i (store st i m.0) (omega arith) ∙ store_self st i m.0))
  view_at-check_from (b ∷ bs) i (suc j) k st e =
      let m : Machine = probe t (reach i) (st i, b.healthy) in
      view_at-check_from bs (suc i) j k (store st i m.0) (omega arith)
      ∙ ap (Option.map (probe t (reach k)))
          (view_at-store bs k j (store st i m.0) st (store_ne st i k m.0 (λ q. omega arith)))
    where
      view_at-store :
          (bs : List Backend) (k j : ℕ) (new old : ProbeStates)
          → new k ≡ old k
          → view_at new k (get_elem? bs j) ≡ view_at old k (get_elem? bs j)
      view_at-store bs k j new old h = elim (Option-cases (get_elem? bs j)) [
        | inl e ↦ rw e
        | inr (c, e) ↦ rw (e, h)
      ]

  -- A round is one probe of each backend, by its own result and its own state.
  pub view-check_once :
      (m : List Backend × ProbeStates) (j : ℕ)
      → view (check_once t reach m) j ≡ Option.map (probe t (reach j)) (view m j)
  unfolding check_once
  view-check_once (bs, st) j = view_at-check_from bs 0 j j st (omega arith)

-- The rounds that are made before the checker is stopped.
abbrev pub made : List Round → List Round
made [] = []
made (r ∷ rs) =
    if not r.running_at_test then [] else if not r.running_after_wait then [] else r ∷ made rs

-- What those rounds report of one backend.
abbrev pub reports : ℕ → List Round → List Bool
reports j rs = map (λ (r : Round). r.reach j) (made rs)

module _ (t : Thresholds) (j : ℕ) where
  Option-map_twice :
      (o : Option Machine) (f g h : Machine → Machine)
      → ((m : Machine) → f (g m) ≡ h m)
      → Option.map f (Option.map g o) ≡ Option.map h o
  Option-map_twice none f g h e = refl
  Option-map_twice (some m) f g h e = ap {B = Option Machine} some (e m)

  Option-map_id : (o : Option Machine) → o ≡ Option.map (probe_all t []) o
  unfolding probe_all
  Option-map_id none = refl
  Option-map_id (some m) = refl

  view-run_rounds :
      (rs : List Round) (m : List Backend × ProbeStates)
      → view (run_rounds t rs m) j ≡ Option.map (probe_all t (reports j rs)) (view m j)
  unfolding run_rounds probe_all
  view-run_rounds [] m = Option-map_id (view m j)
  view-run_rounds (r ∷ rs) m =
      let go =
        view-run_rounds rs (check_once t r.reach m)
        ∙ ap (Option.map (probe_all t (reports j rs))) (view-check_once t r.reach m j)
        ∙ Option-map_twice (view m j) (probe_all t (reports j rs)) (probe t (r.reach j))
            (probe_all t (r.reach j ∷ reports j rs)) (λ k. refl) in
      elim (Bool-cases r.running_at_test) [
        | inr stop ↦ simp stop (Option-map_id (view m j))
        | inl on ↦ elim (Bool-cases r.running_after_wait) [
          | inr stop ↦ simp (on, stop) (Option-map_id (view m j))
          | inl on' ↦ simp (on, on') go
        ]
      ]

  -- Whatever the rounds, each backend's probe state and health after the checker's run are those
  -- of the probe machine run over that backend's own results: that of the probe at the start, and
  -- of each round made until the stop.
  pub view-run_checker :
      (reach : ℕ → Bool) (rs : List Round) (m : List Backend × ProbeStates)
      → view (run_checker t reach rs m) j
        ≡ Option.map (probe_all t (reach j ∷ reports j rs)) (view m j)
  unfolding run_checker probe_all
  view-run_checker reach rs m =
      view-run_rounds rs (check_once t reach m)
      ∙ ap (Option.map (probe_all t (reports j rs))) (view-check_once t reach m j)
      ∙ Option-map_twice (view m j) (probe_all t (reports j rs)) (probe t (reach j))
          (probe_all t (reach j ∷ reports j rs)) (λ k. refl)
