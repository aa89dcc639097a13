-- ===== src/Logs.antt =====
-- pkg/logs/slog.go, with the checks of internal/cfg/env.go that its level relies on, and
-- pkg/ctxlogger/logger.go. A logger is the configuration of its slog
-- handler and the attributes that were added to it; what slog writes is left out.
pub mod Levels
pub mod Default
mod Tests
use gqueue.Common.{
  ℕ, zero, suc, String, Bool, true, false, ◌||◌, ltb, ◌==◌, string_Eq, Option, none, some, List, [],
  ◌∷◌, ◌++◌, if◌then◌else◌, ℤ, pos, negsuc, is_negative, geb, not, Try, ok, error,
}
use gqueue.Topic.{append}

-- The two settings of cfg.Config that are checked, as cleanenv read them.
pub record Config : Type 0 where
  pub wq : String
  pub log_level : ℤ

-- WQ.IsValid; `none` is the nil error.
unfoldable pub is_valid : String → Option String
unfolding append
is_valid wq =
    if wq == "googlepubsub" || wq == "aws" || wq == "redis"
    then none
    else some (append "invalid WQ type: " wq)

abbrev pub after_valid : Config → Option String → Try Config
after_valid conf (some err) = error err
after_valid conf none =
    if is_negative conf.log_level || not (geb (pos 3) conf.log_level)
    then error "invalid log level"
    else ok conf

-- Get, on what cleanenv.ReadEnv answers; an error is the value of a panic.
unfoldable pub get : Try Config → Try Config
unfolding is_valid
get (error err) = error err
get (ok conf) = after_valid conf (is_valid conf.wq)

-- The levels of log/slog
pub data Level : Type 0 where
  debug info warn error_level : Level

-- LogLevel.GetLevel
unfoldable pub get_level : ℤ → Level
get_level (pos zero) = Level.debug
get_level (pos (suc zero)) = Level.info
get_level (pos (suc (suc zero))) = Level.warn
get_level (pos (suc (suc (suc zero)))) = Level.error_level
get_level l = Level.info

-- logConfig; an output is its name.
pub record LogConfig : Type 0 where
  pub level : ℤ
  pub output : String
  pub add_source : Bool
  pub json_format : Bool
  pub time_format : String

pub data LogOption : Type 0 where
  with_level : ℤ → LogOption
  with_output : String → LogOption
  with_source : LogOption
  with_json_format : Bool → LogOption
  with_time_format : String → LogOption

-- opt(config)
unfoldable pub apply_option : LogOption → LogConfig → LogConfig
apply_option (LogOption.with_level level) c = record c { level = level }
apply_option (LogOption.with_output w) c = record c { output = w }
apply_option LogOption.with_source c = record c { add_source = true }
apply_option (LogOption.with_json_format enabled) c = record c { json_format = enabled }
apply_option (LogOption.with_time_format format) c = record c { time_format = format }

unfoldable pub apply_options : List LogOption → LogConfig → LogConfig
unfolding apply_option
apply_options [] c = c
apply_options (opt ∷ opts) c = apply_options opts (apply_option opt c)

-- The logger: slog's handler, and the attributes of With. The time format is not handed on.
pub record Logger : Type 0 where
  pub min_level : Level
  pub output : String
  pub add_source : Bool
  pub json : Bool
  pub attributes : List String

abbrev pub logger_of : LogConfig → Logger
logger_of c = record {
  min_level = get_level c.level;
  output = c.output;
  add_source = c.add_source;
  json = c.json_format;
  attributes = [];
}

abbrev pub new_config : Config → LogConfig
new_config conf = record {
  level = conf.log_level;
  output = "stdout";
  add_source = false;
  json_format = true;
  time_format = "";
}

abbrev pub after_config : List LogOption → Try Config → Try Logger
after_config opts (error err) = error err
after_config opts (ok conf) = ok (logger_of (apply_options opts (new_config conf)))

-- New; an error is a panic of cfg.Get.
unfoldable pub new : Try Config → List LogOption → Try Logger
unfolding get apply_options get_level
new env opts = after_config opts (get env)

-- With
abbrev pub with_args : Logger → List String → Logger
with_args l args = record l { attributes = l.attributes ++ args }

-- The variables `defaultLogger` and `once`
pub record Package : Type 0 where
  pub default_logger : Option Logger
  pub done : Bool

abbrev pub start : Package
start = record { default_logger = none; done = false }

abbrev pub after_new : Package → Try Logger → Package
after_new pkg (ok l) = record { default_logger = some l; done = true }
after_new pkg (error err) = record pkg { done = true }

-- Default: what the package is afterwards; the logger is its `default_logger`. A panic of New inside
-- Do counts as done.
unfoldable pub default : Try Config → Package → Package
unfolding new
default env pkg = if pkg.done then pkg else after_new pkg (new env [])

-- SetDefault
abbrev pub set_default : Logger → Package → Package
set_default l pkg = record pkg { default_logger = some l }

-- ctxlogger.GetLogger, where the context has a logger or not
unfoldable pub get_logger : Option Logger → Try Config → Package → Option Logger
unfolding default
get_logger (some l) env pkg = some l
get_logger none env pkg = (default env pkg).default_logger
