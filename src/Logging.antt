-- ===== src/Logging.antt =====
-- internal/pkg/logx/logger.go: the logger, as far as the program chooses it: where its lines go, and
-- which levels it passes on.
pub mod Numbers
pub mod Bounds
use web_template_go.Errors.{ok, err, Result, Error}
use web_template_go.Prelude.{
  ℕ, zero, suc, ◌+◌, ◌-◌, ◌<◌, ◌≤◌, List, [], ◌∷◌, ◌++◌, Bool, true, false, not, ◌↔◌, map, Option,
  none, some, if◌then◌else◌, Bool-cases, Option-cases, sym, ap, ◌==◌, ◌∙◌, ◌≡◌, ◌≢◌, refl, ◌⊎◌, inl,
  inr, arith, ◌||◌,
}
use web_template_go.Greeter.Trace.{Level, debug, info, warn, error, fatal}
use web_template_go.Databases.{or_default, ℤ, pos}
use web_template_go.Text.{Bytes, Unicode, bytes, same, to_lower, trim_space}
use web_template_go.Logging.Numbers.{parse_int_env}

pub record Options : Type 0 where
  pub level : Bytes
  pub format : Bytes
  pub caller : Bool
  pub filename : Bytes
  pub max_size_mb : ℤ
  pub max_backups : ℤ
  pub max_age_days : ℤ
  pub compress : Bool
  pub to_stdout : Bool
  pub local_time : Bool

-- lumberjack.Logger, a file that is replaced when it is full.
pub record RotateWriter : Type 0 where
  pub filename : Bytes
  pub max_size : ℤ
  pub max_backups : ℤ
  pub max_age : ℤ
  pub compress : Bool
  pub local_time : Bool

-- os.Stdout, a file, or io.MultiWriter of the two.
pub data Writer : Type 0 where
  standard_output : Writer
  rotating standard_output_and : RotateWriter → Writer

pub record Logger : Type 0 where
  pub writer : Writer
  pub filter_level : Level

unfoldable pub rotate_writer : Options → RotateWriter
rotate_writer opts = record {
  filename = trim_space opts.filename;
  max_size = or_default (pos 100) opts.max_size_mb;
  max_backups = or_default (pos 7) opts.max_backups;
  max_age = or_default (pos 30) opts.max_age_days;
  compress = opts.compress;
  local_time = opts.local_time;
}

unfoldable pub build_writer : Options → Writer
unfolding rotate_writer
build_writer opts =
    if same (trim_space opts.filename) []
    then standard_output
    else if opts.to_stdout
    then standard_output_and (rotate_writer opts)
    else rotating (rotate_writer opts)

module _ (tables : Unicode) where
  unfoldable pub parse_level : Bytes → Level
  parse_level v =
      let word = to_lower tables (trim_space v) in
      if same word (bytes "debug")
      then debug
      else if same word (bytes "warn") || same word (bytes "warning")
      then warn
      else if same word (bytes "error")
      then error
      else if same word (bytes "fatal")
      then fatal
      else info

  unfoldable pub new_with_options : Options → Logger
  unfolding build_writer parse_level
  new_with_options opts = record {
    writer = build_writer opts;
    filter_level = parse_level opts.level;
  }

  -- os.Getenv is an argument; it gives the empty text for a variable that is not set.
  unfoldable pub parse_bool_env : (Bytes → Bytes) → Bytes → Bool
  parse_bool_env getenv name =
      let word = to_lower tables (trim_space (getenv name)) in
      same word (bytes "1")
      || same word (bytes "t")
      || same word (bytes "true")
      || same word (bytes "yes")
      || same word (bytes "y")

  unfoldable pub env_options : (Bytes → Bytes) → Options
  unfolding parse_bool_env
  env_options getenv = record {
    level = trim_space (getenv (bytes "LOG_LEVEL"));
    format = trim_space (getenv (bytes "LOG_FORMAT"));
    caller = parse_bool_env getenv (bytes "LOG_CALLER");
    filename = trim_space (getenv (bytes "LOG_FILE"));
    max_size_mb = parse_int_env getenv (bytes "LOG_MAX_SIZE_MB") (pos 100);
    max_backups = parse_int_env getenv (bytes "LOG_MAX_BACKUPS") (pos 7);
    max_age_days = parse_int_env getenv (bytes "LOG_MAX_AGE_DAYS") (pos 30);
    compress = parse_bool_env getenv (bytes "LOG_COMPRESS");
    to_stdout = parse_bool_env getenv (bytes "LOG_TO_STDOUT");
    local_time = parse_bool_env getenv (bytes "LOG_LOCAL_TIME");
  }

  unfoldable pub new_logger : (Bytes → Bytes) → Logger
  unfolding new_with_options env_options
  new_logger getenv = new_with_options (env_options getenv)
