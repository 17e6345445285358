-- ===== src/Config.antt =====
-- include/fluxgate/Config.h and src/Config.cpp: the configuration file.
pub mod Text
pub mod Number
pub mod Assign
pub mod Loader
pub mod Valid
pub mod Tests
use flux_gate.Base.{ℕ, List}
use flux_gate.Backend.{Bytes, BackendConfig}

-- The errors that the loader throws, with what their messages name.
pub data ConfigError : Type 0 where
  cannot_open : ConfigError
  invalid_integer : Bytes → Bytes → ConfigError
  out_of_range : Bytes → Bytes → ConfigError
  unknown_server_key : Bytes → ConfigError
  unknown_health_key : Bytes → ConfigError
  incomplete_backend : ConfigError
  empty_backend_name : ℕ → ConfigError
  unknown_section : ℕ → Bytes → ConfigError
  expected_pair : ℕ → ConfigError
  empty_key_or_value : ℕ → ConfigError
  unknown_backend_key : ℕ → Bytes → ConfigError
  key_before_section : ℕ → ConfigError
  no_backend : ConfigError
  timeout_not_smaller : ConfigError
  duplicate_name : Bytes → ConfigError

pub record AppConfig : Type 0 where
  pub listen_host : Bytes
  pub listen_port : ℕ
  pub workers : ℕ
  pub backlog : ℕ
  pub max_events : ℕ
  pub buffer_size : ℕ
  pub connect_timeout_ms : ℕ
  pub idle_timeout_seconds : ℕ
  pub stats_interval_seconds : ℕ
  pub health_check_interval_ms : ℕ
  pub health_check_timeout_ms : ℕ
  pub health_check_failure_threshold : ℕ
  pub health_check_success_threshold : ℕ
  pub log_level : Bytes
  pub backends : List BackendConfig
