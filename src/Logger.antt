-- ===== src/Logger.antt =====
-- internal/util/logger.go: the levels, InitializeLogger, NewLogLogger and the writer behind it.
-- zerolog's state is its global level and whether events name their caller; formats and outputs are
-- left out. strings.TrimSpace is an argument.
pub mod Messages
use webfs.Base.{
  ℕ, suc, ◌+◌, Bool, false, ◌&&◌, Option, none, some, List, [], ◌∷◌, length, drop, nat_beq, leb,
  ltb, if◌then◌else◌,
}
use webfs.Base.Int.{ℤ, leb_ℤ}
use webfs.Base.Maps.{Text}
use webfs.Config.{trace_level, debug_level, info_level, warn_level, error_level}

-- zerolog.Level
pub data ZerologLevel : Type 0 where
  zerolog_trace zerolog_debug zerolog_info zerolog_warn zerolog_error : ZerologLevel

abbrev pub same_level : ℤ → ℤ → Bool
same_level a b = leb_ℤ a b && leb_ℤ b a

-- The switch of InitializeLogger, and of NewLogLogger
unfoldable pub zerolog_level : ℤ → ZerologLevel
zerolog_level lvl =
    if same_level lvl trace_level
    then zerolog_trace
    else if same_level lvl debug_level
    then zerolog_debug
    else if same_level lvl info_level
    then zerolog_info
    else if same_level lvl warn_level
    then zerolog_warn
    else if same_level lvl error_level
    then zerolog_error
    else zerolog_info

pub record Zerolog : Type 0 where
  pub global_level : ZerologLevel
  pub with_caller : Bool

-- InitializeLogger
unfoldable pub initialize_logger : ℤ → Zerolog
unfolding zerolog_level
initialize_logger level = record {
  global_level = zerolog_level level;
  with_caller = same_level level trace_level;
}

-- zerologWriter
pub record ZerologWriter : Type 0 where
  pub component : Text
  pub level : ZerologLevel

-- NewLogLogger
unfoldable pub new_log_logger : Text → ℤ → ZerologWriter
unfolding zerolog_level
new_log_logger component lvl = record { component = component; level = zerolog_level lvl }

abbrev pub starts_colon_space : Text → Bool
starts_colon_space (c ∷ d ∷ s) = nat_beq c b':' && nat_beq d b' '
starts_colon_space (c ∷ []) = false
starts_colon_space [] = false

-- strings.LastIndex(msg, ": ")
unfoldable pub last_colon_space : Text → Option ℕ
last_colon_space [] = none
last_colon_space (c ∷ s) = elim (last_colon_space s) [
  | some i ↦ some (suc i)
  | none ↦ if starts_colon_space (c ∷ s) then some 0 else none
]

without_prefix : Option ℕ → Text → Text
without_prefix none msg = msg
without_prefix (some i) msg = if ltb (i + 2) (length msg) then drop (i + 2) msg else msg

-- What Write logs, with the level and the component, and the count that it returns
unfoldable pub write : (Text → Text) → ZerologWriter → Text → (ZerologLevel × Text × Text) × ℕ
unfolding without_prefix last_colon_space
write trim_space writer p =
    let msg = trim_space p in
    ((writer.level, writer.component, without_prefix (last_colon_space msg) msg), length p)
