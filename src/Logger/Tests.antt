-- ===== src/Logger/Tests.antt =====
-- The log of src/Logger.cpp at run time, and the printing of a port.
use flux_gate.Base.{◌≡◌, ◌↔◌, refl, List, [], ◌∷◌, ◌++◌, arith, ok}
use flux_gate.Config.Text.{codes}
use flux_gate.Config.Number.{parse_long}
use flux_gate.Decimal.{to_decimal, parse_long-to_decimal}
use flux_gate.Logger.Levels.{IsParsed, parse_level-IsParsed_iff}
use flux_gate.Logger.Lines.{run_logs}
use flux_gate.Logger.{
  Entry, LogLevel, debug, warn, level_name, parse_level, base_name, format_line, vlog, new_logger,
}

port_printed : to_decimal 8080 ≡ codes "8080"
unfolding to_decimal
port_printed = refl

parse_long-to_decimal_example : parse_long (to_decimal 8080) (codes "port") 1 65535 ≡ ok 8080
parse_long-to_decimal_example =
    parse_long-to_decimal 8080 (omega arith) (codes "port") 1 65535 (omega arith) (omega arith)

parse_level-IsParsed_iff_example :
    (parse_level (codes "Warning") ≡ ok warn) ↔ IsParsed (codes "Warning") (ok warn)
parse_level-IsParsed_iff_example = parse_level-IsParsed_iff (codes "Warning") warn

base_name_found : base_name (codes "src/src/Net.cpp") ≡ codes "Net.cpp"
unfolding base_name
base_name_found = refl

abbrev entry : LogLevel → Entry
entry level = record {
  level = level;
  timestamp = codes "2024-01-01 00:00:00";
  file = codes "src/main.cpp";
  line = 42;
  message = codes "ready";
}

abbrev entries : List Entry
entries = entry debug ∷ entry warn ∷ []

entries_written :
    (run_logs entries new_logger).written
    ≡ codes "[2024-01-01 00:00:00] [WARN ] [main.cpp:42] ready" ++ (b'\n' ∷ [])
unfolding vlog format_line to_decimal base_name level_name
entries_written = refl
