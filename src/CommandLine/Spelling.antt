-- ===== src/CommandLine/Spelling.antt =====
-- What parse_flags makes of flags that are spelled out.
use web_template_go.Prelude.{
  List, [], ◌∷◌, ◌++◌, Bool, true, false, Option, none, some, if◌then◌else◌, ◌∙◌, ◌≡◌, refl,
  append_assoc,
}
use web_template_go.Text.{Bytes, bytes, same}
use web_template_go.CommandLine.Parse.{
  BoolFlag, Flags, StringFlag, after_dash, argument, bool_name, bool_value, cut_value,
  default_flags, find_flag, named_argument, one_of, parse_bool, parse_flags, parse_rest, set_bool,
  set_string, string_name, plain, named, string_flag, bool_flag, accepted, root_flag,
  target_dir_flag, crud_flag, skip_auto_register_flag,
}

-- The words that strconv.ParseBool takes.
pub data Word : Type 0 where
  one_word t_word upper_t_word upper_true_word true_word capital_true_word : Word
  zero_word f_word upper_f_word upper_false_word false_word capital_false_word : Word

-- A flag on the command line: with two dashes or one, and for a string flag its value behind `=` or
-- in an argument of its own, for a boolean flag no value or one of the twelve words for a truth value
-- behind `=`.
pub data Setting : Type 0 where
  root_setting target_dir_setting : (double_dash joined : Bool) → Bytes → Setting
  crud_setting skip_auto_register_setting : (double_dash : Bool) → Option Word → Setting

abbrev dashes : Bool → Bytes → Bytes
dashes double_dash name = if double_dash then b'-' ∷ b'-' ∷ name else b'-' ∷ name

abbrev word_text : Word → Bytes
word_text one_word = bytes "1"
word_text t_word = bytes "t"
word_text upper_t_word = bytes "T"
word_text upper_true_word = bytes "TRUE"
word_text true_word = bytes "true"
word_text capital_true_word = bytes "True"
word_text zero_word = bytes "0"
word_text f_word = bytes "f"
word_text upper_f_word = bytes "F"
word_text upper_false_word = bytes "FALSE"
word_text false_word = bytes "false"
word_text capital_false_word = bytes "False"

abbrev word_value : Word → Bool
word_value one_word = true
word_value t_word = true
word_value upper_t_word = true
word_value upper_true_word = true
word_value true_word = true
word_value capital_true_word = true
word_value _ = false

unfoldable pub spell_string : Bool → Bool → Bytes → Bytes → List Bytes
spell_string double_dash joined name value =
    if joined
    then dashes double_dash (name ++ b'=' ∷ value) ∷ []
    else dashes double_dash name ∷ value ∷ []

unfoldable pub spell_bool : Bool → Bytes → Option Word → List Bytes
spell_bool double_dash name none = dashes double_dash name ∷ []
spell_bool double_dash name (some b) = dashes double_dash (name ++ b'=' ∷ word_text b) ∷ []

unfoldable pub spell : Setting → List Bytes
unfolding spell_string spell_bool
spell (root_setting double_dash joined value) = spell_string double_dash joined (bytes "root") value
spell (target_dir_setting double_dash joined value) =
    spell_string double_dash joined (bytes "target-dir") value
spell (crud_setting double_dash value) = spell_bool double_dash (bytes "crud") value
spell (skip_auto_register_setting double_dash value) =
    spell_bool double_dash (bytes "skip-auto-register") value

unfoldable pub spell_all : List Setting → List Bytes
spell_all [] = []
spell_all (s ∷ settings) = spell s ++ spell_all settings

-- The flags behind a setting. A boolean flag without a value is set.
abbrev is_set : Option Word → Bool
is_set none = true
is_set (some b) = word_value b

unfoldable pub set : Setting → Flags → Flags
set (root_setting double_dash joined value) flags = record flags { root = value }
set (target_dir_setting double_dash joined value) flags = record flags { target_dir = value }
set (crud_setting double_dash value) flags = record flags { crud = is_set value }
set (skip_auto_register_setting double_dash value) flags = record flags {
  skip_auto_register = is_set value;
}

unfoldable pub set_all : List Setting → Flags → Flags
set_all [] flags = flags
set_all (s ∷ settings) flags = set_all settings (set s flags)

argument_bare_string :
    (double_dash : Bool) (flag : StringFlag)
    → argument (dashes double_dash (string_name flag)) ≡ named (string_name flag) none
unfolding string_name bytes argument after_dash named_argument cut_value
argument_bare_string true root_flag = refl
argument_bare_string true target_dir_flag = refl
argument_bare_string false root_flag = refl
argument_bare_string false target_dir_flag = refl

argument_joined_string :
    (double_dash : Bool) (flag : StringFlag) (value : Bytes)
    → argument (dashes double_dash (string_name flag ++ b'=' ∷ value))
      ≡ named (string_name flag) (some value)
unfolding string_name bytes argument after_dash named_argument cut_value
argument_joined_string true root_flag value = refl
argument_joined_string true target_dir_flag value = refl
argument_joined_string false root_flag value = refl
argument_joined_string false target_dir_flag value = refl

argument_bare_bool :
    (double_dash : Bool) (flag : BoolFlag)
    → argument (dashes double_dash (bool_name flag)) ≡ named (bool_name flag) none
unfolding bool_name bytes argument after_dash named_argument cut_value
argument_bare_bool true crud_flag = refl
argument_bare_bool true skip_auto_register_flag = refl
argument_bare_bool false crud_flag = refl
argument_bare_bool false skip_auto_register_flag = refl

argument_joined_bool :
    (double_dash : Bool) (flag : BoolFlag) (value : Bytes)
    → argument (dashes double_dash (bool_name flag ++ b'=' ∷ value))
      ≡ named (bool_name flag) (some value)
unfolding bool_name bytes argument after_dash named_argument cut_value
argument_joined_bool true crud_flag value = refl
argument_joined_bool true skip_auto_register_flag value = refl
argument_joined_bool false crud_flag value = refl
argument_joined_bool false skip_auto_register_flag value = refl

find_flag-string_name : (flag : StringFlag) → find_flag (string_name flag) ≡ some (string_flag flag)
unfolding find_flag string_name bool_name bytes same
find_flag-string_name root_flag = refl
find_flag-string_name target_dir_flag = refl

find_flag-bool_name : (flag : BoolFlag) → find_flag (bool_name flag) ≡ some (bool_flag flag)
unfolding find_flag string_name bool_name bytes same
find_flag-bool_name crud_flag = refl
find_flag-bool_name skip_auto_register_flag = refl

parse_bool-text : (b : Word) → parse_bool (word_text b) ≡ some (word_value b)
unfolding parse_bool one_of bytes same
parse_bool-text one_word = refl
parse_bool-text t_word = refl
parse_bool-text upper_t_word = refl
parse_bool-text upper_true_word = refl
parse_bool-text true_word = refl
parse_bool-text capital_true_word = refl
parse_bool-text zero_word = refl
parse_bool-text f_word = refl
parse_bool-text upper_f_word = refl
parse_bool-text upper_false_word = refl
parse_bool-text false_word = refl
parse_bool-text capital_false_word = refl

parse_rest-spell_string :
    (double_dash joined : Bool) (flag : StringFlag) (value : Bytes) (flags : Flags)
    (args : List Bytes)
    → parse_rest flags none (spell_string double_dash joined (string_name flag) value ++ args)
      ≡ parse_rest (set_string flag value flags) none args
unfolding parse_rest spell_string
parse_rest-spell_string double_dash true flag value flags args =
    rw (parse_rest, argument_joined_string double_dash flag value, find_flag-string_name flag)
parse_rest-spell_string double_dash false flag value flags args =
    rw (parse_rest, argument_bare_string double_dash flag, find_flag-string_name flag)

parse_rest-spell_bool :
    (double_dash : Bool) (flag : BoolFlag) (value : Option Word) (flags : Flags) (args : List Bytes)
    → parse_rest flags none (spell_bool double_dash (bool_name flag) value ++ args)
      ≡ parse_rest (set_bool flag (is_set value) flags) none args
unfolding parse_rest spell_bool bool_value
parse_rest-spell_bool double_dash flag none flags args =
    rw (parse_rest, argument_bare_bool double_dash flag, find_flag-bool_name flag)
parse_rest-spell_bool double_dash flag (some b) flags args = rw (
  parse_rest,
  argument_joined_bool double_dash flag (word_text b),
  find_flag-bool_name flag,
  parse_bool-text b,
)

parse_rest-spell :
    (s : Setting) (flags : Flags) (args : List Bytes)
    → parse_rest flags none (spell s ++ args) ≡ parse_rest (set s flags) none args
unfolding spell set set_string set_bool string_name bool_name
parse_rest-spell (root_setting d j value) = parse_rest-spell_string d j root_flag value
parse_rest-spell (target_dir_setting d j value) = parse_rest-spell_string d j target_dir_flag value
parse_rest-spell (crud_setting d value) = parse_rest-spell_bool d crud_flag value
parse_rest-spell (skip_auto_register_setting d value) =
    parse_rest-spell_bool d skip_auto_register_flag value

parse_rest-spell_all :
    (settings : List Setting) (flags : Flags) (args : List Bytes)
    → parse_rest flags none (spell_all settings ++ args)
      ≡ parse_rest (set_all settings flags) none args
unfolding spell_all set_all
parse_rest-spell_all [] flags args = refl
parse_rest-spell_all (s ∷ settings) flags args = rw (
  append_assoc (spell s) (spell_all settings) args,
  parse_rest-spell s flags (spell_all settings ++ args),
  parse_rest-spell_all settings (set s flags) args,
)

-- Flags in any order and number, each with one dash or two, a value of a string flag behind `=` or in
-- the next argument, and a boolean flag bare or with any of the twelve words behind `=`, before an argument that is not read
-- as a flag: parse_flags returns that argument, and the defaults changed by one flag after the other,
-- where values of string flags may be any texts.
pub parse_flags-spell_all :
    (settings : List Setting) (proto : Bytes) (args : List Bytes)
    → argument proto ≡ plain
    → parse_flags (spell_all settings ++ proto ∷ args)
      ≡ accepted (set_all settings default_flags) (proto ∷ args)
unfolding parse_flags parse_rest
parse_flags-spell_all settings proto args h =
    parse_rest-spell_all settings default_flags (proto ∷ args) ∙ rw (parse_rest, h) refl
