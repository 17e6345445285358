-- ===== src/Config/Tests.antt =====
-- A configuration file for src/Config.cpp.
use flux_gate.Base.{
  add64, mul64, ℕ, ◌≡◌, refl, true, List, [], ◌∷◌, map, Option, some, ok, err, arith,
}
use flux_gate.Backend.{Bytes, BackendConfig, Backend, Endpoint}
use flux_gate.Config.{AppConfig, out_of_range}
use flux_gate.Config.Text.{
  codes, same_bytes, trim, trim_start, trim_end, lower, cut_comment, split_pair,
}
use flux_gate.Config.Number.{stol, parse_long, read_magnitude, read_digits}
use flux_gate.Config.Assign.{new_config, assign_server_value, assign_health_value}
use flux_gate.Config.Loader.{
  finish_backend, enter_backend, enter_section, assign_backend_value, assign_value, load_trimmed,
  load_lines, check_names, check_config, load,
}
use flux_gate.Config.Valid.Loaded.{IsValid, load-IsValid, load-run_actions-IsLeast}
use flux_gate.Pool.{Pool, new_pool, acquire}
use flux_gate.Pool.Least.{IsLeast}
use flux_gate.Pool.System.{Action, acquires, act}
use flux_gate.Pool.Runs.{start, run_actions}
use flux_gate.Backend.{new_backend}

abbrev pub file : List Bytes
file =
    codes "# a proxy"
    ∷ codes " [Server] "
    ∷ codes "Workers = 2 ; two"
    ∷ codes ""
    ∷ codes "[backend  One]"
    ∷ codes "host=127.0.0.1"
    ∷ codes "port= 9001"
    ∷ codes "[backend two]"
    ∷ codes "host=b"
    ∷ codes "port=9002"
    ∷ codes "weight=3"
    ∷ []

abbrev pub loaded : AppConfig
loaded = record new_config {
  workers = 2;
  backends =
      record { name = codes "One"; host = codes "127.0.0.1"; port = 9001; weight = 1 }
      ∷ record { name = codes "two"; host = codes "b"; port = 9002; weight = 3 }
      ∷ [];
}

pub load-file : load (some file) ≡ ok loaded
unfolding load load_lines load_trimmed finish_backend enter_section enter_backend assign_value
    assign_backend_value assign_server_value assign_health_value check_names check_config trim
    trim_start trim_end lower cut_comment split_pair same_bytes stol parse_long read_magnitude
    read_digits
load-file = refl

parse_long_tests :
    (parse_long (codes "65536") (codes "port") 1 65535
      ≡ err (out_of_range (codes "port") (codes "65536")))
    × (parse_long (codes "-1") (codes "n") 0 9 ≡ err (out_of_range (codes "n") (codes "-1")))
    × (parse_long (codes "7x") (codes "n") 0 9 ≡ err (out_of_range (codes "n") (codes "7x")))
    × (parse_long (codes "-0") (codes "n") 0 9 ≡ ok 0)
unfolding stol parse_long read_magnitude read_digits
parse_long_tests = (refl, refl, refl, refl)

load-IsValid_example : IsValid loaded
load-IsValid_example = load-IsValid (some file) loaded load-file

abbrev resolve : Bytes → ℕ → Option Endpoint
resolve host port = some (record { address = host; text = host })

abbrev backend : BackendConfig → Backend
backend c = record {
  config = c;
  endpoint = record { address = c.host; text = c.host };
  healthy = true;
  active_connections = 0;
  total_connections = 0;
  failed_connections = 0;
}

abbrev pool : Pool
pool = record { backends = map backend loaded.backends; tie_breaker = 0 }

pool_made : new_pool resolve loaded.backends ≡ ok pool
unfolding new_pool new_backend
pool_made = refl

-- After one lease of each, the second backend, of weight 3, is the less loaded.
abbrev two_acquires : List Action
two_acquires = acquires ∷ acquires ∷ []

third_lease : (acquire (run_actions (start pool) two_acquires).pool).1 ≡ some 1
unfolding run_actions act acquire add64 mul64
third_lease = refl

load-run_actions-IsLeast_example :
    (b : Backend) × IsLeast (run_actions (start pool) two_acquires).pool 1 b
load-run_actions-IsLeast_example =
    load-run_actions-IsLeast resolve (some file) loaded pool two_acquires 1 load-file pool_made
      (omega arith) third_lease
