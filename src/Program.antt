-- ===== src/Program.antt =====
-- src/main.cpp: the command line, and the start of the program until it listens.
pub mod Start
mod Tests
use flux_gate.Base.{
  ℕ, Bool, true, false, ◌||◌, List, [], ◌∷◌, Option, none, some, length, if◌then◌else◌, Result, ok,
  err, ◌>>=◌,
}
use flux_gate.Backend.{Bytes, Endpoint, PoolError}
use flux_gate.Config.Text.{codes, same_bytes}
use flux_gate.Config.Loader.{load}
use flux_gate.Config.{AppConfig, ConfigError}
use flux_gate.Logger.{LogLevel, parse_level}
use flux_gate.Net.Address.{Resolver, resolve_tcp_endpoint}
use flux_gate.Net.{NetError}
use flux_gate.Pool.{Pool, new_pool}

pub record Options : Type 0 where
  pub config_path : Bytes
  pub check_only : Bool
  pub show_version : Bool

abbrev pub new_options : Options
new_options = record {
  config_path = codes "config/fluxgate.conf";
  check_only = false;
  show_version = false;
}

-- What an argument is for `parseOptions`, in the order of its tests.
pub data Word : Type 0 where
  names_path names_check names_version names_help names_nothing : Word

abbrev pub is_one_of : Bytes → Bytes → Bytes → Bool
is_one_of argument long short = same_bytes argument long || same_bytes argument short

unfoldable pub read_word : Bytes → Word
unfolding same_bytes
read_word argument =
    if is_one_of argument (codes "-c") (codes "--config")
    then names_path
    else if same_bytes argument (codes "--check")
    then names_check
    else if is_one_of argument (codes "--version") (codes "-v")
    then names_version
    else if is_one_of argument (codes "--help") (codes "-h")
    then names_help
    else names_nothing

-- `exits` is the end of the program after the usage.
pub data Parsed : Type 0 where
  runs : Options → Parsed
  exits : Parsed

-- The arguments after the program's name; an error is the argument that is not known. The option
-- that takes a path is not known as the last argument.
unfoldable pub parse_from : List Bytes → Options → Result Bytes Parsed
unfolding read_word
parse_from [] o = ok (runs o)
parse_from (a ∷ []) o = elim (read_word a) [
  | names_path ↦ err a
  | names_check ↦ ok (runs (record o { check_only = true }))
  | names_version ↦ ok (runs (record o { show_version = true }))
  | names_help ↦ ok exits
  | names_nothing ↦ err a
]
parse_from (a ∷ b ∷ more) o = elim (read_word a) [
  | names_path ↦ parse_from more (record o { config_path = b })
  | names_check ↦ parse_from (b ∷ more) (record o { check_only = true })
  | names_version ↦ parse_from (b ∷ more) (record o { show_version = true })
  | names_help ↦ ok exits
  | names_nothing ↦ err a
]

unfoldable pub parse_options : List Bytes → Result Bytes Parsed
unfolding parse_from
parse_options arguments = parse_from arguments new_options

-- The exceptions that `main` reports.
pub data StartError : Type 0 where
  bad_argument : Bytes → StartError
  bad_config : ConfigError → StartError
  bad_level : Bytes → StartError
  bad_pool : PoolError → StartError

-- How far the program gets: it prints its usage or its version, the number of backends of a checked
-- configuration, or goes on to listen.
pub data Outcome : Type 0 where
  usage : Outcome
  version : Outcome
  checked : ℕ → Outcome
  serves : AppConfig → LogLevel → Pool → Outcome

abbrev pub rethrow : {E A : Type 0} → (E → StartError) → Result E A → Result StartError A
rethrow f (ok a) = ok a
rethrow f (err e) = err (f e)

abbrev pub to_option : Result NetError Endpoint → Option Endpoint
to_option (ok e) = some e
to_option (err e) = none

module _ (r : Resolver) (read : Bytes → Option (List Bytes)) where
  -- `resolveTcpEndpoint` as the constructor of a backend calls it.
  abbrev pub resolve_with : Bytes → ℕ → Option Endpoint
  resolve_with host port = to_option (resolve_tcp_endpoint r host port)

  unfoldable pub configure : Options → Result StartError Outcome
  unfolding load parse_level new_pool
  configure o = do
    c ← rethrow bad_config (load (read o.config_path))
    level ← rethrow bad_level (parse_level c.log_level)
    pool ← rethrow bad_pool (new_pool resolve_with c.backends)
    ok (if o.check_only then checked (length pool.backends) else serves c level pool)

  abbrev pub after_options : Parsed → Result StartError Outcome
  after_options exits = ok usage
  after_options (runs o) = if o.show_version then ok version else configure o

  -- `main` before it creates the listening socket; `read` gives the lines of a file.
  unfoldable pub start_program : List Bytes → Result StartError Outcome
  unfolding parse_options configure
  start_program arguments = rethrow bad_argument (parse_options arguments) >>= after_options
