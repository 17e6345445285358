-- ===== src/Config/Assign.antt =====
-- The defaults, and the assignment of one key to its member (src/Config.cpp). A `long` within its
-- bounds fits the member's type, so that the casts keep it.
use flux_gate.Base.{ℕ, ◌*◌, ◌%◌, ◌^◌, [], if◌then◌else◌, Result, ok, err}
use flux_gate.Backend.{Bytes}
use flux_gate.Config.{AppConfig, ConfigError, unknown_server_key, unknown_health_key}
use flux_gate.Config.Text.{codes, same_bytes, lower}
use flux_gate.Config.Number.{store_long}

-- `AppConfig::AppConfig`.
abbrev pub new_config : AppConfig
new_config = record {
  listen_host = codes "0.0.0.0";
  listen_port = 8080;
  workers = 4;
  backlog = 1024;
  max_events = 2048;
  buffer_size = 64 * 1024;
  connect_timeout_ms = 3000;
  idle_timeout_seconds = 60;
  stats_interval_seconds = 10;
  health_check_interval_ms = 3000;
  health_check_timeout_ms = 800;
  health_check_failure_threshold = 3;
  health_check_success_threshold = 2;
  log_level = codes "info";
  backends = [];
}

-- `static_cast<std::uint16_t>`.
abbrev pub to_uint16 : ℕ → ℕ
to_uint16 n = n % 2 ^ 16

-- `assignServerValue`.
unfoldable pub assign_server_value : AppConfig → Bytes → Bytes → Result ConfigError AppConfig
unfolding lower
assign_server_value c key value =
    if same_bytes key (codes "listen_host")
    then ok (record c { listen_host = value })
    else if same_bytes key (codes "listen_port")
    then store_long value key 1 65535 (λ n. record c { listen_port = to_uint16 n })
    else if same_bytes key (codes "workers")
    then store_long value key 1 128 (λ n. record c { workers = n })
    else if same_bytes key (codes "backlog")
    then store_long value key 16 65535 (λ n. record c { backlog = n })
    else if same_bytes key (codes "max_events")
    then store_long value key 16 65536 (λ n. record c { max_events = n })
    else if same_bytes key (codes "buffer_size")
    then store_long value key 4096 (16 * 1024 * 1024) (λ n. record c { buffer_size = n })
    else if same_bytes key (codes "connect_timeout_ms")
    then store_long value key 50 60000 (λ n. record c { connect_timeout_ms = n })
    else if same_bytes key (codes "idle_timeout_seconds")
    then store_long value key 1 86400 (λ n. record c { idle_timeout_seconds = n })
    else if same_bytes key (codes "stats_interval_seconds")
    then store_long value key 0 3600 (λ n. record c { stats_interval_seconds = n })
    else if same_bytes key (codes "log_level")
    then ok (record c { log_level = lower value })
    else err (unknown_server_key key)

-- `assignHealthValue`.
unfoldable pub assign_health_value : AppConfig → Bytes → Bytes → Result ConfigError AppConfig
assign_health_value c key value =
    if same_bytes key (codes "interval_ms")
    then store_long value key 200 600000 (λ n. record c { health_check_interval_ms = n })
    else if same_bytes key (codes "timeout_ms")
    then store_long value key 50 60000 (λ n. record c { health_check_timeout_ms = n })
    else if same_bytes key (codes "failure_threshold")
    then store_long value key 1 100 (λ n. record c { health_check_failure_threshold = n })
    else if same_bytes key (codes "success_threshold")
    then store_long value key 1 100 (λ n. record c { health_check_success_threshold = n })
    else err (unknown_health_key key)
