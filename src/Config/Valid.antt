-- ===== src/Config/Valid.antt =====
-- What `ConfigLoader::load` (src/Config.cpp) returns.
pub mod Bounds
pub mod Names
pub mod Loads
pub mod Loaded
use flux_gate.Base.{ℕ, zero, suc, ◌<◌, ◌≤◌, ◌≡◌, ◌≢◌, List, length, get_elem?, [], ◌∷◌}
use flux_gate.Backend.{Bytes, BackendConfig}
use flux_gate.Config.{AppConfig}

abbrev pub Within : ℕ → ℕ → ℕ → Type 0
Within low high n = (low ≤ n) × (n ≤ high)

pub record IsServed (b : BackendConfig) : Type 0 where
  pub named : b.name ≢ []
  pub hosted : b.host ≢ []
  pub port : Within 1 65535 b.port
  pub weight : Within 1 1000 b.weight

abbrev pub AllServed : List BackendConfig → Type 0
AllServed [] = Unit {0}
AllServed (b ∷ bs) = IsServed b × AllServed bs

-- The bounds of the numbers.
abbrev pub Bounds : AppConfig → Type 0
Bounds c =
    Within 1 65535 c.listen_port
    × Within 1 128 c.workers
    × Within 16 65535 c.backlog
    × Within 16 65536 c.max_events
    × Within 4096 16777216 c.buffer_size
    × Within 50 60000 c.connect_timeout_ms
    × Within 1 86400 c.idle_timeout_seconds
    × Within 0 3600 c.stats_interval_seconds
    × Within 200 600000 c.health_check_interval_ms
    × Within 50 60000 c.health_check_timeout_ms
    × Within 1 100 c.health_check_failure_threshold
    × Within 1 100 c.health_check_success_threshold

pub record IsBounded (c : AppConfig) : Type 0 where
  pub bounds : Bounds c
  pub served : AllServed c.backends
