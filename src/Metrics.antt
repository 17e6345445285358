-- ===== src/Metrics.antt =====
-- include/fluxgate/Metrics.h and src/Metrics.cpp: the process-wide counters. Each atomic access is
-- one step.
pub mod Snapshot
mod Tests
use flux_gate.Base.{ℕ, ltb, if◌then◌else◌, add64, sub64}

pub record Metrics : Type 0 where
  pub accepted : ℕ
  pub active : ℕ
  pub rejected : ℕ
  pub connect_failures : ℕ
  pub client_to_backend_bytes : ℕ
  pub backend_to_client_bytes : ℕ

abbrev pub new_metrics : Metrics
new_metrics = record {
  accepted = 0;
  active = 0;
  rejected = 0;
  connect_failures = 0;
  client_to_backend_bytes = 0;
  backend_to_client_bytes = 0;
}

unfoldable pub on_accepted : Metrics → Metrics
on_accepted m = record m { accepted = add64 m.accepted 1 }

unfoldable pub on_opened : Metrics → Metrics
on_opened m = record m { active = add64 m.active 1 }

unfoldable pub on_closed : Metrics → Metrics
on_closed m = if ltb 0 m.active then record m { active = sub64 m.active 1 } else m

unfoldable pub on_rejected : Metrics → Metrics
on_rejected m = record m { rejected = add64 m.rejected 1 }

unfoldable pub on_connect_failure : Metrics → Metrics
on_connect_failure m = record m { connect_failures = add64 m.connect_failures 1 }

unfoldable pub add_client_to_backend : Metrics → ℕ → Metrics
add_client_to_backend m n = record m { client_to_backend_bytes = add64 m.client_to_backend_bytes n }

unfoldable pub add_backend_to_client : Metrics → ℕ → Metrics
add_backend_to_client m n = record m { backend_to_client_bytes = add64 m.backend_to_client_bytes n }
