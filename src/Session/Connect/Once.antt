-- ===== src/Session/Connect/Once.antt =====
-- The connect of a session (src/ProxySession.cpp) is settled once, over any events.
use flux_gate.Base.{ℕ, ◌≡◌, ◌⊎◌, true, false, some, ok, err}
use flux_gate.Backend.{Backend}
use flux_gate.Pool.{Pool}
use flux_gate.Io.{Kernel}
use flux_gate.Session.State.{Live}
use flux_gate.Session.Stages.{Stage}
use flux_gate.Session.Connect.{Charged, one_more_total, Settled}

module _ {S : Type 0} (k : Kernel S) (i : ℕ) (p : Pool) (failures : ℕ) where
  -- A session that is not closing.
  abbrev Open : Live S → Type 0
  Open l =
      (l.session.backend ≡ some i)
      × (((l.session.upstream_connecting ≡ true)
            × (l.world.pool ≡ p)
            × (l.world.metrics.connect_failures ≡ failures))
          ⊎ ((l.session.upstream_connecting ≡ false)
              × Charged one_more_total i p l.world.pool
              × (l.world.metrics.connect_failures ≡ failures)))

  abbrev Kept : Live S → Type 0
  Kept l = (l.session.backend ≡ some i) × Settled i p failures l

  abbrev StageKept : Stage S → Type 0
  StageKept (err r) = Kept r.1
  StageKept (ok l) = Kept l

  -- The connect's stage ends the event with the books settled, or leaves an open session.
  abbrev Connects : Stage S → Type 0
  Connects (err r) = Kept r.1
  Connects (ok l) = Open l
