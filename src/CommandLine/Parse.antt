-- ===== src/CommandLine/Parse.antt =====
-- What cmd/scaffold/main.go uses of Go's package flag: string and boolean flags, spelled with one
-- dash or two, the value behind `=` or, of a string flag, in the next argument.
use web_template_go.Prelude.{
  List, [], ◌∷◌, Bool, true, false, Option, none, some, if◌then◌else◌, ◌==◌, ◌||◌,
}
use web_template_go.Text.{Bytes, bytes, same}

-- The variables that the flags set.
pub record Flags : Type 0 where
  pub root : Bytes
  pub target_dir : Bytes
  pub crud : Bool
  pub skip_auto_register : Bool

unfoldable pub default_flags : Flags
default_flags = record {
  root = bytes ".";
  target_dir = bytes "internal/service";
  crud = false;
  skip_auto_register = false;
}

pub data StringFlag : Type 0 where
  root_flag target_dir_flag : StringFlag

pub data BoolFlag : Type 0 where
  crud_flag skip_auto_register_flag : BoolFlag

pub data Flag : Type 0 where
  string_flag : StringFlag → Flag
  bool_flag : BoolFlag → Flag

pub data FlagError : Type 0 where
  bad_flag_syntax : Bytes → FlagError
  not_defined : Bytes → FlagError
  invalid_boolean : Bytes → Bytes → FlagError
  needs_argument : Bytes → FlagError
  help_requested : FlagError

-- What fs.Parse returns: an error, or the flags and the arguments behind them.
pub data Parsed : Type 0 where
  refused : FlagError → Parsed
  accepted : Flags → List Bytes → Parsed

unfoldable pub string_name : StringFlag → Bytes
string_name root_flag = bytes "root"
string_name target_dir_flag = bytes "target-dir"

unfoldable pub bool_name : BoolFlag → Bytes
bool_name crud_flag = bytes "crud"
bool_name skip_auto_register_flag = bytes "skip-auto-register"

-- f.formal[name]
unfoldable pub find_flag : Bytes → Option Flag
unfolding string_name bool_name
find_flag name =
    if same name (string_name root_flag)
    then some (string_flag root_flag)
    else if same name (string_name target_dir_flag)
    then some (string_flag target_dir_flag)
    else if same name (bool_name crud_flag)
    then some (bool_flag crud_flag)
    else if same name (bool_name skip_auto_register_flag)
    then some (bool_flag skip_auto_register_flag)
    else none

unfoldable pub set_string : StringFlag → Bytes → Flags → Flags
set_string root_flag value flags = record flags { root = value }
set_string target_dir_flag value flags = record flags { target_dir = value }

unfoldable pub set_bool : BoolFlag → Bool → Flags → Flags
set_bool crud_flag value flags = record flags { crud = value }
set_bool skip_auto_register_flag value flags = record flags { skip_auto_register = value }

-- strconv.ParseBool
unfoldable pub one_of : Bytes → List Bytes → Bool
one_of s [] = false
one_of s (t ∷ texts) = same s t || one_of s texts

unfoldable pub parse_bool : Bytes → Option Bool
unfolding one_of
parse_bool s =
    if one_of s
      (bytes "1" ∷ bytes "t" ∷ bytes "T" ∷ bytes "TRUE" ∷ bytes "true" ∷ bytes "True" ∷ [])
    then some true
    else if one_of s
        (bytes "0" ∷ bytes "f" ∷ bytes "F" ∷ bytes "FALSE" ∷ bytes "false" ∷ bytes "False" ∷ [])
    then some false
    else none

-- An argument: none of the flags, the mark `--` behind them, no flag's syntax, or a flag with its
-- name and the value behind `=`.
pub data Argument : Type 0 where
  plain terminator bad_syntax : Argument
  named : Bytes → Option Bytes → Argument

-- The name before the first `=`, and the text behind it.
unfoldable pub cut_value : Bytes → Bytes × Option Bytes
cut_value [] = ([], none)
cut_value (c ∷ s) =
    let (name, value) = cut_value s in if c == b'=' then ([], some s) else (c ∷ name, value)

unfoldable pub named_argument : Bytes → Argument
unfolding cut_value
named_argument [] = bad_syntax
named_argument (c ∷ s) =
    let (name, value) = cut_value s in
    if c == b'-' || c == b'=' then bad_syntax else named (c ∷ name) value

unfoldable pub after_dash : Bytes → Argument
unfolding named_argument
after_dash [] = plain
after_dash (d ∷ []) = if d == b'-' then terminator else named_argument (d ∷ [])
after_dash (d ∷ e ∷ s) = if d == b'-' then named_argument (e ∷ s) else named_argument (d ∷ e ∷ s)

unfoldable pub argument : Bytes → Argument
unfolding after_dash
argument [] = plain
argument (c ∷ s) = if c == b'-' then after_dash s else plain

-- A name that no flag has: -h and -help ask for the list of flags.
unfoldable pub unknown_flag : Bytes → FlagError
unknown_flag name =
    if same name (bytes "help") || same name (bytes "h") then help_requested else not_defined name

unfoldable pub bool_value : BoolFlag → Option Bytes → Option Bool
unfolding parse_bool
bool_value flag none = some true
bool_value flag (some value) = parse_bool value

-- fs.Parse, in a run over the arguments. While a string flag waits for its value, it is `some`.
unfoldable pub parse_rest : Flags → Option StringFlag → List Bytes → Parsed
unfolding argument find_flag set_string set_bool bool_value unknown_flag string_name bool_name
parse_rest flags (some flag) [] = refused (needs_argument (string_name flag))
parse_rest flags (some flag) (value ∷ args) = parse_rest (set_string flag value flags) none args
parse_rest flags none [] = accepted flags []
parse_rest flags none (arg ∷ args) = elim (argument arg) [
  | plain ↦ accepted flags (arg ∷ args)
  | terminator ↦ accepted flags args
  | bad_syntax ↦ refused (bad_flag_syntax arg)
  | named name value ↦ elim (find_flag name) [
    | none ↦ refused (unknown_flag name)
    | some (bool_flag flag) ↦ elim (bool_value flag value) [
      | none ↦ refused (invalid_boolean (elim value [ none ↦ [] | some v ↦ v ]) name)
      | some b ↦ parse_rest (set_bool flag b flags) none args
    ]
    | some (string_flag flag) ↦ elim value [
      | none ↦ parse_rest flags (some flag) args
      | some v ↦ parse_rest (set_string flag v flags) none args
    ]
  ]
]

unfoldable pub parse_flags : List Bytes → Parsed
unfolding parse_rest default_flags
parse_flags args = parse_rest default_flags none args
