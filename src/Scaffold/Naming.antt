-- ===== src/Scaffold/Naming.antt =====
-- singularize, lowerCamel and upperCamel of internal/scaffold/proto.go.
pub mod Plural
pub mod Camel
use web_template_go.Prelude.{
  ℕ, zero, suc, ◌-◌, List, [], ◌∷◌, ◌++◌, Bool, true, false, ◌&&◌, ◌||◌, not, if◌then◌else◌, ◌==◌,
  ltb, length, take,
}
use web_template_go.Text.{Bytes, bytes, same, has_suffix, Unicode, to_lower, to_upper_one}

-- word[:len(word)-n]
abbrev pub cut_end : ℕ → Bytes → Bytes
cut_end n word = take (length word - n) word

unfoldable pub singularize : Bytes → Bytes
singularize word =
    if has_suffix word (bytes "ies") && ltb 3 (length word)
    then cut_end 3 word ++ bytes "y"
    else if has_suffix word (bytes "ses")
        || has_suffix word (bytes "xes")
        || has_suffix word (bytes "zes")
    then cut_end 2 word
    else if has_suffix word (bytes "s") && not (has_suffix word (bytes "ss"))
    then cut_end 1 word
    else word

-- The separators of both functions on camel case.
abbrev pub is_separator : ℕ → Bool
is_separator r = r == b'-' || r == b'_' || r == b'.'

-- A field that has been read, unless it is empty.
unfoldable pub flush : Bytes → List Bytes → List Bytes
flush [] fields = fields
flush (c ∷ s) fields = (c ∷ s) ∷ fields

unfoldable pub fields_from : Bytes → Bytes → List Bytes
unfolding flush
fields_from [] cur = flush cur []
fields_from (c ∷ s) cur =
    let cut = fields_from s [] in
    let more = fields_from s (cur ++ c ∷ []) in if is_separator c then flush cur cut else more

-- strings.FieldsFunc(input, separator)
unfoldable pub fields : Bytes → List Bytes
unfolding fields_from
fields input = fields_from input []

-- strings.ToUpper(part[:1]), then part[1:]
unfoldable pub capitalize : Bytes → Bytes
capitalize [] = []
capitalize (c ∷ s) = to_upper_one c ++ s

-- The round of `lowerCamel` for the part at place `i`.
unfoldable pub lower_part : Unicode → ℕ → Bytes → Bytes
unfolding capitalize
lower_part table i part =
    if same part [] then [] else if i == 0 then to_lower table part else capitalize part

unfoldable pub lower_parts : Unicode → ℕ → List Bytes → Bytes
unfolding lower_part
lower_parts table i [] = []
lower_parts table i (part ∷ parts) = lower_part table i part ++ lower_parts table (suc i) parts

unfoldable pub lower_camel : Unicode → Bytes → Bytes
unfolding fields lower_parts
lower_camel table input = lower_parts table 0 (fields input)

unfoldable pub upper_parts : List Bytes → Bytes
unfolding capitalize
upper_parts [] = []
upper_parts (part ∷ parts) = capitalize part ++ upper_parts parts

unfoldable pub upper_camel : Bytes → Bytes
unfolding fields upper_parts
upper_camel input = upper_parts (fields input)
