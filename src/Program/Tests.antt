-- ===== src/Program/Tests.antt =====
-- A start of src/main.cpp with a configuration file.
use flux_gate.Base.{◌≡◌, refl, true, false, List, [], ◌∷◌, ◌++◌, map, Option, some, ok, err}
use flux_gate.Backend.{Bytes, BackendConfig, Backend, new_backend}
use flux_gate.Config.Text.{codes}
use flux_gate.Config.Tests.{file, loaded, load-file}
use flux_gate.Decimal.{to_decimal}
use flux_gate.Logger.{info}
use flux_gate.Net.Address.{Resolver, resolve_tcp_endpoint}
use flux_gate.Pool.{Pool}
use flux_gate.Program.{runs, exits, serves, parse_options, start_program}
use flux_gate.Program.Start.{IsFounded, start_program-IsFounded}

abbrev resolver : Resolver
resolver = record {
  addresses = λ host service. ok ((2 ∷ 0 ∷ []) ∷ []);
  ntop = λ family address. codes "0.0.0.0";
}

abbrev read : Bytes → Option (List Bytes)
read path = some file

abbrev backend : BackendConfig → Backend
backend c = record {
  config = c;
  endpoint = record { address = 2 ∷ 0 ∷ []; text = codes "0.0.0.0:" ++ to_decimal c.port };
  healthy = true;
  active_connections = 0;
  total_connections = 0;
  failed_connections = 0;
}

abbrev pool : Pool
pool = record { backends = map backend loaded.backends; tie_breaker = 0 }

options_parsed :
    (parse_options (codes "-c" ∷ codes "a.conf" ∷ codes "--check" ∷ [])
      ≡ ok
          (runs (record { config_path = codes "a.conf"; check_only = true; show_version = false })))
    × (parse_options (codes "--check" ∷ codes "-c" ∷ []) ≡ err (codes "-c"))
    × (parse_options (codes "-h" ∷ codes "-x" ∷ []) ≡ ok exits)
unfolding parse_options
options_parsed = (refl, refl, refl)

abbrev arguments : List Bytes
arguments = codes "-c" ∷ codes "a.conf" ∷ []

started : start_program resolver read arguments ≡ ok (serves loaded info pool)
unfolding start_program new_backend resolve_tcp_endpoint
started = rw load-file refl

start_program-IsFounded_example : IsFounded resolver read (serves loaded info pool)
start_program-IsFounded_example =
    start_program-IsFounded resolver read arguments (serves loaded info pool) started
