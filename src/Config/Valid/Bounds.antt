-- ===== src/Config/Valid/Bounds.antt =====
-- The bounds that the assignments of src/Config.cpp keep.
use flux_gate.Base.{
  inl, inr, Bool-cases, ℕ, Bool, not, ◌||◌, Option, none, some, length, ◌==◌, if◌then◌else◌, arith,
  Result, ok, Ensures, Ensures-bind, Ensures-if, Ensures-ok, Ensures-err,
}
use flux_gate.Backend.{Bytes}
use flux_gate.Config.{AppConfig, ConfigError}
use flux_gate.Config.Text.{codes, same_bytes, lower}
use flux_gate.Config.Number.{Long, is_less, is_more, stol, check_long, parse_long, store_long}
use flux_gate.Config.Assign.{new_config, to_uint16, assign_server_value, assign_health_value}
use flux_gate.Config.Valid.{Within, IsBounded}

check_long-Within :
    (value key : Bytes) (low high : ℕ) (o : Option (Long × ℕ))
    → Ensures (Within low high) (check_long value key low high o)
check_long-Within value key low high none = Ensures-err (Within low high) _
check_long-Within value key low high (some (n, consumed)) =
    elim (Bool-cases (not (consumed == length value) || is_less n low || is_more n high)) [
      | inl out ↦ rw out (Ensures-err (Within low high) _)
      | inr within ↦
          rw within (Ensures-ok ConfigError (Within low high) n.magnitude (ground (arith, within)))
    ]

parse_long-Within :
    (value key : Bytes) (low high : ℕ) → Ensures (Within low high) (parse_long value key low high)
unfolding parse_long
parse_long-Within value key low high = check_long-Within value key low high (stol value)

pub store_long-Ensures :
    {A : Type 0} (P : A → Type 0) (value key : Bytes) (low high : ℕ) (f : ℕ → A)
    → ((n : ℕ) → Within low high n → P (f n))
    → Ensures P (store_long value key low high f)
store_long-Ensures P value key low high f h =
    Ensures-bind (Within low high) P (parse_long value key low high) (λ n. ok (f n))
      (parse_long-Within value key low high) (λ n w. Ensures-ok ConfigError P (f n) (h n w))

-- A branch that stores a number, and the branches after it.
pub or_store :
    {A : Type 0} (P : A → Type 0) (t : Bool) (value key : Bytes) (low high : ℕ) (f : ℕ → A)
    (rest : Result ConfigError A)
    → ((n : ℕ) → Within low high n → P (f n))
    → Ensures P rest
    → Ensures P (if t then store_long value key low high f else rest)
or_store P t value key low high f rest h k =
    Ensures-if P t _ _ (λ e. store_long-Ensures P value key low high f h) (λ e. k)

pub new_config-IsBounded : IsBounded new_config
new_config-IsBounded = record { bounds = omega arith; served = tt }

pub to_uint16-Within : (n : ℕ) → Within 1 65535 n → Within 1 65535 (to_uint16 n)
to_uint16-Within n h = omega (arith, h)

module _ (c : AppConfig) (b : IsBounded c) (key value : Bytes) where
  pub assign_server_value-IsBounded : Ensures IsBounded (assign_server_value c key value)
  unfolding assign_server_value
  assign_server_value-IsBounded =
      Ensures-if {E = ConfigError} IsBounded (same_bytes key (codes "listen_host"))
        (ok (record c { listen_host = value })) _
        (λ e. Ensures-ok ConfigError IsBounded _ (record { bounds = b.bounds; served = b.served }))
        (λ e.
          (or_store IsBounded _ value key 1 65535 (λ n. record c { listen_port = to_uint16 n }) _
            (λ n h. record {
              bounds = omega (arith, b.bounds, to_uint16-Within n h);
              served = b.served;
            })
            (or_store IsBounded _ value key 1 128 (λ n. record c { workers = n }) _
              (λ n h. record { bounds = omega (arith, b.bounds, h); served = b.served })
              (or_store IsBounded _ value key 16 65535 (λ n. record c { backlog = n }) _
                (λ n h. record { bounds = omega (arith, b.bounds, h); served = b.served })
                (or_store IsBounded _ value key 16 65536 (λ n. record c { max_events = n }) _
                  (λ n h. record { bounds = omega (arith, b.bounds, h); served = b.served })
                  (or_store IsBounded _ value key 4096 16777216 (λ n. record c { buffer_size = n })
                    _ (λ n h. record { bounds = omega (arith, b.bounds, h); served = b.served })
                    (or_store IsBounded _ value key 50 60000
                      (λ n. record c { connect_timeout_ms = n }) _
                      (λ n h. record { bounds = omega (arith, b.bounds, h); served = b.served })
                      (or_store IsBounded _ value key 1 86400
                        (λ n. record c { idle_timeout_seconds = n }) _
                        (λ n h. record { bounds = omega (arith, b.bounds, h); served = b.served })
                        (or_store IsBounded _ value key 0 3600
                          (λ n. record c { stats_interval_seconds = n }) _
                          (λ n h. record { bounds = omega (arith, b.bounds, h); served = b.served })
                          (Ensures-if IsBounded (same_bytes key (codes "log_level"))
                            (ok (record c { log_level = lower value })) _
                            (λ e.
                              Ensures-ok ConfigError IsBounded _
                                (record { bounds = b.bounds; served = b.served }))
                            (λ e. Ensures-err IsBounded _)))))))))))

  pub assign_health_value-IsBounded : Ensures IsBounded (assign_health_value c key value)
  unfolding assign_health_value
  assign_health_value-IsBounded =
      (or_store IsBounded _ value key 200 600000 (λ n. record c { health_check_interval_ms = n }) _
        (λ n h. record { bounds = omega (arith, b.bounds, h); served = b.served })
        (or_store IsBounded _ value key 50 60000 (λ n. record c { health_check_timeout_ms = n }) _
          (λ n h. record { bounds = omega (arith, b.bounds, h); served = b.served })
          (or_store IsBounded _ value key 1 100
            (λ n. record c { health_check_failure_threshold = n }) _
            (λ n h. record { bounds = omega (arith, b.bounds, h); served = b.served })
            (or_store IsBounded _ value key 1 100
              (λ n. record c { health_check_success_threshold = n }) _
              (λ n h. record { bounds = omega (arith, b.bounds, h); served = b.served })
              (Ensures-err IsBounded _)))))
