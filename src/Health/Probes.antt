-- ===== src/Health/Probes.antt =====
-- `HealthChecker::checkOnce` (src/HealthChecker.cpp) with the probes that it makes by
-- `waitForConnect` (src/Net.cpp).
use flux_gate.Base.{ℕ, suc, ◌≡◌, Bool, true, List, [], ◌∷◌, Option, none, some, ◌==◌, if◌then◌else◌}
use flux_gate.Backend.{Backend, set_healthy}
use flux_gate.Net.Sockets.{wait_for_connect}
use flux_gate.Net.Balance.{Leaves}
use flux_gate.Net.Polling.{IsUp}
use flux_gate.Net.{SocketCalls, Deed, closes, Host}
use flux_gate.Health.{ProbeState, ProbeStates, Thresholds, probe, store, check_from}

-- The backends and their probe states, none where a probe has no answer.
abbrev pub Checked : Type 0 → Type 0
Checked S = Option (List Backend × ProbeStates) × Host S

abbrev pub checked_too : {S : Type 0} → Backend → Checked S → Checked S
checked_too b (none, h) = (none, h)
checked_too b (some (bs, states), h) = (some (b ∷ bs, states), h)

module _ {S : Type 0} (k : SocketCalls S) (t : Thresholds) (timeout : ℕ) where
  -- The loop from the backend of index `i` on: each is probed in turn.
  unfoldable pub probe_from : ℕ → List Backend → ProbeStates → Host S → Checked S
  unfolding wait_for_connect probe set_healthy
  probe_from i [] states h = (some ([], states), h)
  probe_from i (b ∷ bs) states h =
      let r = wait_for_connect k b.endpoint timeout h in
      elim r.0 [
        | none ↦ (none, r.1)
        | some reachable ↦
            let (s, current) = probe t reachable (states i, b.healthy) in
            checked_too (set_healthy b current) (probe_from (suc i) bs (store states i s) r.1)
      ]

  unfoldable pub probe_once : List Backend × ProbeStates → Host S → Checked S
  unfolding probe_from
  probe_once (bs, states) h = probe_from 0 bs states h

-- The probe of each backend in turn, from the host that the one before it leaves, answers as `reach`
-- says of the backend's index; and a yes means that the last thing it did before it closed its
-- socket was a connect to that backend that succeeded.
abbrev pub Answered :
    {S : Type 0} → SocketCalls S → ℕ → (ℕ → Bool) → ℕ → List Backend → Host S → Type 0
Answered k timeout reach i [] h = Unit {0}
Answered k timeout reach i (b ∷ bs) h =
    ((wait_for_connect k b.endpoint timeout h).0 ≡ some (reach i))
    × (reach i ≡ true
        → (fd : ℕ) × (last : List Deed) × ((wait_for_connect k b.endpoint timeout h).1.trace
            ≡ closes fd ∷ last)
          × IsUp b.endpoint.address fd last)
    × Answered k timeout reach (suc i) bs (wait_for_connect k b.endpoint timeout h).1

-- The counters and the health are those that the probes' answers make, and no socket is left open.
pub record IsProbed {S : Type 0} (k : SocketCalls S) (timeout : ℕ) (t : Thresholds) (i : ℕ)
    (bs : List Backend) (states : ProbeStates) (h : Host S) (r : Checked S) : Type 0 where
  pub reach : ℕ → Bool
  pub by_probes : Answered k timeout reach i bs h
  pub same : r.0 ≡ some (check_from t reach i bs states)
  pub steady : Leaves (λ f. 0) h.trace r.1.trace

abbrev answer_first : ℕ → Bool → (ℕ → Bool) → ℕ → Bool
answer_first i answer reach j = if j == i then answer else reach j

module _ (t : Thresholds) (i : ℕ) (b : Backend) (bs : List Backend) (states : ProbeStates)
    (answer : Bool) where
  -- What the answer makes of the backend.
  abbrev probed : ProbeState × Bool
  probed = probe t answer (states i, b.healthy)
