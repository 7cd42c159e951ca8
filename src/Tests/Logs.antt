-- ===== src/Tests/Logs.antt =====
-- The logger with a few environment variables set.
use web_template_go.Greeter.Trace.{warn}
use web_template_go.Databases.{is_positive, or_default, pos}
use web_template_go.Prelude.{ltb, [], ◌∷◌, ◌++◌, false, if◌then◌else◌, ◌≡◌, refl, arith, ◌&&◌}
use web_template_go.Logging.Bounds.{
  IsBoundedWriter, new_logger-IsBoundedWriter, parse_int_env-digits,
}
use web_template_go.Logging.Numbers.{
  digit_bytes, int_limit, is_digit, negative_int, non_negative_int, parse_int_env, positive_or,
  read_digits, scan_int, scan_number, value,
}
use web_template_go.Text.{
  Bytes, ascii_space, bytes, has_prefix, is_ascii, lower_byte, plain_tables, same, skip_space,
  space_width, space_width_back, to_lower, trim_space,
}
use web_template_go.Logging.{
  build_writer, env_options, new_logger, new_with_options, parse_bool_env, parse_level,
  rotate_writer, rotating,
}

abbrev environment : Bytes → Bytes
environment name =
    if same name (bytes "LOG_FILE")
    then bytes " app.log "
    else if same name (bytes "LOG_MAX_SIZE_MB")
    then bytes "012MB"
    else if same name (bytes "LOG_MAX_BACKUPS")
    then bytes "-3"
    else if same name (bytes "LOG_MAX_AGE_DAYS")
    then bytes "9223372036854775808"
    else if same name (bytes "LOG_LEVEL")
    then bytes "Warning"
    else []

size_is_12 :
    trim_space (environment (bytes "LOG_MAX_SIZE_MB")) ≡ digit_bytes (0 ∷ 1 ∷ 2 ∷ []) ++ bytes "MB"
unfolding trim_space ascii_space skip_space space_width space_width_back has_prefix same bytes
size_is_12 = refl

parse_int_env-digits_example :
    parse_int_env environment (bytes "LOG_MAX_SIZE_MB") (pos 100)
    ≡ (let n = value 0 (0 ∷ 1 ∷ 2 ∷ []) in if ltb 0 n && ltb n int_limit then pos n else pos 100)
parse_int_env-digits_example =
    parse_int_env-digits environment (bytes "LOG_MAX_SIZE_MB") (pos 100) 0 (1 ∷ 2 ∷ []) (bytes "MB")
      (omega arith) (unfold is_digit bytes in refl) size_is_12

-- A size with a unit, and two numbers that are replaced.
chosen : new_logger plain_tables environment ≡ record {
  writer = rotating (record {
    filename = bytes "app.log";
    max_size = pos 12;
    max_backups = pos 7;
    max_age = pos 30;
    compress = false;
    local_time = false;
  });
  filter_level = warn;
}
unfolding new_logger new_with_options env_options parse_level parse_bool_env build_writer
    rotate_writer or_default is_positive parse_int_env scan_int scan_number read_digits is_digit
    non_negative_int negative_int positive_or to_lower is_ascii lower_byte trim_space ascii_space
    skip_space space_width space_width_back has_prefix same bytes
chosen = refl

new_logger-IsBoundedWriter_example : IsBoundedWriter (new_logger plain_tables environment).writer
new_logger-IsBoundedWriter_example = new_logger-IsBoundedWriter plain_tables environment
