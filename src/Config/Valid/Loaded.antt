-- ===== src/Config/Valid/Loaded.antt =====
-- What `ConfigLoader::load` (src/Config.cpp) returns, and the pool made from it.
use flux_gate.Base.{
  ℕ, ◌<◌, ◌≡◌, false, List, [], ◌∷◌, Option, none, some, length, leb, ◌==◌, arith, ok, Ensures,
  Ensures-bind, Ensures-if, Ensures-ok, Ensures-err, Ensures-eq-ok,
}
use flux_gate.Backend.{Bytes, BackendConfig, Backend, Endpoint}
use flux_gate.Pool.{Pool, new_pool, acquire}
use flux_gate.Pool.Least.{IsLeast}
use flux_gate.Pool.System.{Action}
use flux_gate.Pool.Runs.{AllWeighted, start, run_actions, run_actions-IsLeast}
use flux_gate.Config.{AppConfig, ConfigError}
use flux_gate.Config.Assign.{new_config}
use flux_gate.Config.Loader.{
  new_loading, finish_backend, load_lines, check_names, check_config, load,
}
use flux_gate.Config.Valid.{AllServed, IsBounded}
use flux_gate.Config.Valid.Bounds.{new_config-IsBounded}
use flux_gate.Config.Valid.Names.{HasDistinctNames, check_names_lem}
use flux_gate.Config.Valid.Loads.{
  IsLoading, finish_backend-IsBounded, fresh-IsLoading, load_lines-IsLoading,
}

pub record IsValid (c : AppConfig) : Type 0 where
  pub bounded : IsBounded c
  pub populated : 0 < length c.backends
  pub timely : c.health_check_timeout_ms < c.health_check_interval_ms
  pub distinct : HasDistinctNames c.backends

check_config-IsValid : (c : AppConfig) → IsBounded c → Ensures IsValid (check_config c)
unfolding check_config
check_config-IsValid c b =
    Ensures-if IsValid (length c.backends == 0) _ _ (λ e. Ensures-err IsValid _)
      (λ some_backend.
        Ensures-if IsValid (leb c.health_check_interval_ms c.health_check_timeout_ms) _ _
          (λ e. Ensures-err IsValid _)
          (λ early.
            Ensures-bind _ IsValid (check_names [] c.backends) (λ u. ok c)
              (check_names_lem [] c.backends)
              (λ u names. Ensures-ok ConfigError IsValid c (record {
                bounded = b;
                populated = ground (arith, some_backend);
                timely = ground (arith, early);
                distinct = names.1;
              }))))

load-Ensures : (file : Option (List Bytes)) → Ensures IsValid (load file)
unfolding load
load-Ensures none = Ensures-err IsValid _
load-Ensures (some lines) =
    Ensures-bind IsLoading IsValid (load_lines 1 lines new_loading) _
      (load_lines-IsLoading 1 lines new_loading
        (fresh-IsLoading new_config [] [] false new_config-IsBounded))
      (λ l r.
        Ensures-bind IsBounded IsValid (finish_backend l) check_config
          (finish_backend-IsBounded l r) check_config-IsValid)

-- A configuration that `load` returns has all its numbers within their bounds and at least one
-- backend; each backend has a name, a host, a port from 1 to 65535 and a weight from 1 to 1000;
-- no two backends have the same name; and the probe's timeout is less than its interval.
pub load-IsValid : (file : Option (List Bytes)) (c : AppConfig) → load file ≡ ok c → IsValid c
load-IsValid file c e = Ensures-eq-ok IsValid (load file) c (load-Ensures file) e

AllServed-AllWeighted : (bs : List BackendConfig) → AllServed bs → AllWeighted bs
AllServed-AllWeighted [] h = tt
AllServed-AllWeighted (b ∷ bs) h = (omega (arith, h.0.weight), AllServed-AllWeighted bs h.1)

-- In a pool made from a configuration that `load` returns, after any history of fewer than 10 ^
-- 12 actions, a lease that `acquire` gives is for a healthy backend of least active / weight, the
-- first such in the rotating order.
pub load-run_actions-IsLeast :
    (resolve : Bytes → ℕ → Option Endpoint) (file : Option (List Bytes)) (c : AppConfig) (p : Pool)
    (acts : List Action) (i : ℕ)
    → load file ≡ ok c
    → new_pool resolve c.backends ≡ ok p
    → length acts < 1_000_000_000_000
    → (acquire (run_actions (start p) acts).pool).1 ≡ some i
    → (b : Backend) × IsLeast (run_actions (start p) acts).pool i b
load-run_actions-IsLeast resolve file c p acts i loaded made few e =
    let weights = AllServed-AllWeighted c.backends (load-IsValid file c loaded).bounded.served in
    run_actions-IsLeast resolve c.backends p acts weights few made i e
