-- ===== src/Session/Connect.antt =====
-- How the upstream connect of a session ends (`ProxySession::handleEvent`, src/ProxySession.cpp), and
-- what it counts.
pub mod Frames
pub mod Once
use mathlib.Core.Option
use flux_gate.Base.{ℕ, ◌≡◌, ◌⊎◌, Bool, true, false, Option, ◌==◌, if◌then◌else◌, get_elem?, add64}
use flux_gate.Backend.{Backend}
use flux_gate.Pool.{Pool}
use flux_gate.Session.State.{Live}

-- The backend of index `i` is changed by `f`, and no other.
abbrev pub Charged : (Backend → Backend) → ℕ → Pool → Pool → Type 0
Charged f i before after =
    (j : ℕ)
    → get_elem? after.backends j
      ≡ (if j == i then Option.map f (get_elem? before.backends j) else get_elem? before.backends j)

abbrev pub one_more_total : Backend → Backend
one_more_total b = record b { total_connections = add64 b.total_connections 1 }

abbrev pub one_more_failed : Backend → Backend
one_more_failed b = record b { failed_connections = add64 b.failed_connections 1 }

-- The connect is pending, and nothing is counted; or it is done, and is counted once for its
-- backend; or it has failed, the session is closing, and that is counted once for its backend and
-- once in the metrics. `p` and `failures` are the pool and the metric from before.
abbrev pub Settled : {S : Type 0} → ℕ → Pool → ℕ → Live S → Type 0
Settled i p failures l =
    ((l.session.upstream_connecting ≡ true)
      × (l.world.pool ≡ p)
      × (l.world.metrics.connect_failures ≡ failures))
    ⊎ (((l.session.upstream_connecting ≡ false)
          × Charged one_more_total i p l.world.pool
          × (l.world.metrics.connect_failures ≡ failures))
        ⊎ ((l.session.closing ≡ true)
            × Charged one_more_failed i p l.world.pool
            × (l.world.metrics.connect_failures ≡ add64 failures 1)))
