-- ===== src/Logger.antt =====
-- include/fluxgate/Logger.h and src/Logger.cpp: the levels of the log, and the lines that pass the
-- threshold. The time that strftime() prints and the message that vfprintf() prints are input; the
-- mutex makes each call one step.
pub mod Levels
pub mod Lines
mod Tests
use flux_gate.Base.{
  ℕ, ◌+◌, ◌-◌, Bool, ◌||◌, [], ◌∷◌, ◌++◌, replicate, length, ltb, ◌==◌, if◌then◌else◌, Result, ok,
  err,
}
use flux_gate.Backend.{Bytes}
use flux_gate.Config.Text.{codes, same_bytes, lower}
use flux_gate.Decimal.{to_decimal}

pub data LogLevel : Type 0 where
  debug info warn error : LogLevel

-- The number of an enumerator.
abbrev pub severity : LogLevel → ℕ
severity debug = 0
severity info = 1
severity warn = 2
severity error = 3

unfoldable pub level_name : LogLevel → Bytes
level_name debug = codes "DEBUG"
level_name info = codes "INFO"
level_name warn = codes "WARN"
level_name error = codes "ERROR"

-- The loop of `baseName`, with its result so far.
abbrev pub base_from : Bytes → Bytes → Bytes
base_from result [] = result
base_from result (c ∷ cs) = base_from (if c == b'/' then cs else result) cs

unfoldable pub base_name : Bytes → Bytes
base_name path = base_from path path

-- The error is the text that is no level.
unfoldable pub parse_level : Bytes → Result Bytes LogLevel
unfolding same_bytes lower
parse_level value =
    let normalized = lower value in
    if same_bytes normalized (codes "debug")
    then ok debug
    else if same_bytes normalized (codes "info")
    then ok info
    else if same_bytes normalized (codes "warn") || same_bytes normalized (codes "warning")
    then ok warn
    else if same_bytes normalized (codes "error")
    then ok error
    else err value

-- A call of `Logger::log`.
pub record Entry : Type 0 where
  pub level : LogLevel
  pub timestamp : Bytes
  pub file : Bytes
  pub line : ℕ
  pub message : Bytes

-- `written` is what the standard error has received.
pub record Logger : Type 0 where
  pub level : LogLevel
  pub written : Bytes

abbrev pub new_logger : Logger
new_logger = record { level = info; written = [] }

unfoldable pub set_level : LogLevel → Logger → Logger
set_level level this = record this { level = level }

-- `%-5s`.
unfoldable pub pad_five : Bytes → Bytes
pad_five text = text ++ replicate (5 - length text) b' '

-- `"[%s] [%-5s] [%s:%d] "`, the message and the end of the line.
unfoldable pub format_line : Entry → Bytes
unfolding pad_five level_name base_name to_decimal
format_line e =
    codes "["
    ++ e.timestamp
    ++ codes "] ["
    ++ pad_five (level_name e.level)
    ++ codes "] ["
    ++ base_name e.file
    ++ codes ":"
    ++ to_decimal e.line
    ++ codes "] "
    ++ e.message
    ++ (b'\n' ∷ [])

-- `Logger::vlog`.
unfoldable pub vlog : Entry → Logger → Logger
unfolding format_line
vlog e this =
    if ltb (severity e.level) (severity this.level)
    then this
    else record this { written = this.written ++ format_line e }
