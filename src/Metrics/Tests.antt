-- ===== src/Metrics/Tests.antt =====
-- A snapshot of the counters of src/Metrics.cpp.
use flux_gate.Base.{◌≡◌, refl, some}
use flux_gate.Config.Text.{codes}
use flux_gate.Decimal.{to_decimal}
use flux_gate.Metrics.{Metrics}
use flux_gate.Metrics.Snapshot.{snapshot, read_snapshot, read_snapshot-snapshot}

abbrev busy : Metrics
busy = record {
  accepted = 120;
  active = 7;
  rejected = 0;
  connect_failures = 3;
  client_to_backend_bytes = 45;
  backend_to_client_bytes = 98;
}

busy_text :
    snapshot busy
    ≡ codes "accepted=120 active=7 rejected=0 connect_failures=3 c2b_bytes=45 b2c_bytes=98"
unfolding snapshot to_decimal
busy_text = refl

read_snapshot-snapshot_example : read_snapshot (snapshot busy) ≡ some busy
read_snapshot-snapshot_example = read_snapshot-snapshot busy
