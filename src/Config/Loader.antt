-- ===== src/Config/Loader.antt =====
-- `ConfigLoader::load` (src/Config.cpp), on the lines that std::getline gives.
use flux_gate.Base.{
  ℕ, suc, ◌-◌, Bool, true, false, not, ◌&&◌, ◌||◌, List, [], ◌∷◌, ◌++◌, Option, none, some, length,
  take, drop, leb, if◌then◌else◌, Result, ok, err, ◌>>=◌, ◌>>◌, ◌==◌,
}
use flux_gate.Backend.{Bytes, BackendConfig}
use flux_gate.Config.{
  AppConfig, ConfigError, cannot_open, incomplete_backend, empty_backend_name, unknown_section,
  expected_pair, empty_key_or_value, unknown_backend_key, key_before_section, no_backend,
  timeout_not_smaller, duplicate_name,
}
use flux_gate.Config.Text.{
  codes, same_bytes, is_blank, trim, lower, cut_comment, starts_with, ends_with, split_pair,
}
use flux_gate.Config.Number.{store_long}
use flux_gate.Config.Assign.{new_config, to_uint16, assign_server_value, assign_health_value}

-- The variables of the loader.
pub record Loading : Type 0 where
  pub config : AppConfig
  pub section : Bytes
  pub current : BackendConfig
  pub inside_backend : Bool
  pub has_host : Bool
  pub has_port : Bool

-- A backend before its keys: the port is 0 and the weight is 1.
abbrev pub new_current : Bytes → BackendConfig
new_current name = record { name = name; host = []; port = 0; weight = 1 }

abbrev pub new_loading : Loading
new_loading = record {
  config = new_config;
  section = [];
  current = new_current [];
  inside_backend = false;
  has_host = false;
  has_port = false;
}

-- The lambda `finishBackend`.
unfoldable pub finish_backend : Loading → Result ConfigError AppConfig
finish_backend l =
    if not l.inside_backend
    then ok l.config
    else if is_blank l.current.name || not l.has_host || not l.has_port
    then err incomplete_backend
    else ok (record (l.config) { backends = l.config.backends ++ (l.current ∷ []) })

unfoldable pub enter_backend : ℕ → Loading → Bytes → Result ConfigError Loading
enter_backend number fresh name =
    if is_blank name
    then err (empty_backend_name number)
    else ok (record fresh {
      section = codes "backend";
      current = new_current name;
      inside_backend = true;
    })

-- A line in brackets, by the text between them, once the section before it is finished.
unfoldable pub enter_section : ℕ → Bytes → AppConfig → Result ConfigError Loading
unfolding lower trim same_bytes enter_backend
enter_section number section config =
    let fresh : Loading = record new_loading { config = config } in
    let normalized : Bytes = lower section in
    if same_bytes normalized (codes "server") || same_bytes normalized (codes "health_check")
    then ok (record fresh { section = normalized })
    else if same_bytes (take 8 normalized) (codes "backend ")
    then enter_backend number fresh (trim (drop 8 section))
    else err (unknown_section number section)

-- A key of a backend's section.
unfoldable pub assign_backend_value : ℕ → Loading → Bytes → Bytes → Result ConfigError Loading
assign_backend_value number l key value =
    if same_bytes key (codes "host")
    then ok (record l { current = record (l.current) { host = value }; has_host = true })
    else if same_bytes key (codes "port")
    then store_long value key 1 65535
        (λ n. record l { current = record (l.current) { port = to_uint16 n }; has_port = true })
    else if same_bytes key (codes "weight")
    then store_long value key 1 1000 (λ n. record l { current = record (l.current) { weight = n } })
    else err (unknown_backend_key number key)

abbrev pub store_config : Loading → AppConfig → Result ConfigError Loading
store_config l c = ok (record l { config = c })

unfoldable pub assign_value : ℕ → Loading → Bytes → Bytes → Result ConfigError Loading
unfolding assign_backend_value
assign_value number l key value =
    if is_blank key || is_blank value
    then err (empty_key_or_value number)
    else if same_bytes l.section (codes "server")
    then (assign_server_value l.config key value >>= store_config l)
    else if same_bytes l.section (codes "health_check")
    then (assign_health_value l.config key value >>= store_config l)
    else if same_bytes l.section (codes "backend") && l.inside_backend
    then assign_backend_value number l key value
    else err (key_before_section number)

abbrev pub load_pair : ℕ → Loading → Option (Bytes × Bytes) → Result ConfigError Loading
load_pair number l none = err (expected_pair number)
load_pair number l (some (key, value)) = assign_value number l (lower (trim key)) (trim value)

-- A line without its comment and the spaces at its ends.
unfoldable pub load_trimmed : ℕ → Loading → Bytes → Result ConfigError Loading
unfolding finish_backend enter_section assign_value
load_trimmed number l line =
    if is_blank line
    then ok l
    else if starts_with b'[' line && ends_with b']' line
    then (finish_backend l >>= enter_section number (trim (take (length line - 2) (drop 1 line))))
    else load_pair number l (split_pair line)

unfoldable pub load_lines : ℕ → List Bytes → Loading → Result ConfigError Loading
unfolding load_trimmed
load_lines number [] l = ok l
load_lines number (line ∷ lines) l =
    load_trimmed number l (trim (cut_comment line)) >>= load_lines (suc number) lines

abbrev pub contains : Bytes → List Bytes → Bool
contains name [] = false
contains name (n ∷ ns) = same_bytes name n || contains name ns

-- The loop over the names, with those met before.
unfoldable pub check_names : List Bytes → List BackendConfig → Result ConfigError (Unit {0})
check_names seen [] = ok tt
check_names seen (b ∷ bs) =
    let rest = check_names (b.name ∷ seen) bs in
    if contains b.name seen then err (duplicate_name b.name) else rest

-- The tests of the whole configuration.
unfoldable pub check_config : AppConfig → Result ConfigError AppConfig
unfolding check_names
check_config c =
    if length c.backends == 0
    then err no_backend
    else if leb c.health_check_interval_ms c.health_check_timeout_ms
    then err timeout_not_smaller
    else (check_names [] c.backends >> ok c)

-- `ConfigLoader::load`; none is a file that does not open.
unfoldable pub load : Option (List Bytes) → Result ConfigError AppConfig
unfolding load_lines finish_backend check_config
load none = err cannot_open
load (some lines) = do l ← load_lines 1 lines new_loading; c ← finish_backend l; check_config c
