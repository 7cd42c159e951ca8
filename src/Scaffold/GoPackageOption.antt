-- ===== src/Scaffold/GoPackageOption.antt =====
-- ReplaceGoPackage of internal/scaffold/proto.go: the regular expression
-- `(?m)^option go_package = "([^"]+)";` and its ReplaceAll, whose replacement is a template in which
-- `$1`, `${1}` and the like stand for groups.
pub mod Match
pub mod Replace
use web_template_go.Prelude.{
  ℕ, zero, suc, ◌+◌, ◌-◌, [], ◌∷◌, ◌++◌, Bool, true, false, ◌&&◌, ◌||◌, ◌==◌, ltb, leb,
  if◌then◌else◌, length, take, drop,
}
use web_template_go.Text.{Bytes, bytes, same, has_prefix, Unicode}
use web_template_go.Errors.{message, Result, ok, err}

abbrev pub quote : ℕ
quote = b'"'

unfoldable pub option_head : Bytes
option_head = bytes "option go_package = \""

unfoldable pub option_tail : Bytes
option_tail = bytes "\";"

-- How many bytes `[^"]+` takes; 0 if it does not match.
unfoldable pub run_length : Bytes → ℕ
run_length [] = 0
run_length (c ∷ s) = let rest = run_length s in if c == quote then 0 else suc rest

-- The length of the match at the start of a line; 0 if there is none.
unfoldable pub match_length : Bytes → ℕ
unfolding run_length
match_length s =
    let body = drop (length option_head) s in
    let n = run_length body in
    if has_prefix s option_head && ltb 0 n && has_prefix (drop n body) option_tail
    then length option_head + n + length option_tail
    else 0

-- goPackageRE.Match, from a place that is or is not the start of a line
unfoldable pub has_option : Bool → Bytes → Bool
has_option at_start [] = false
has_option at_start (c ∷ s) =
    (at_start && ltb 0 (match_length (c ∷ s))) || has_option (c == b'\n') s

unfoldable pub is_word : ℕ → Bool
is_word c =
    leb b'a' c && leb c b'z' || leb b'A' c && leb c b'Z' || leb b'0' c && leb c b'9' || c == b'_'

-- How many bytes of a group's name stand at the start, after `skip` bytes that belong to it.
unfoldable pub name_length : Unicode → ℕ → Bytes → ℕ
unfolding is_word
name_length tables skip [] = 0
name_length tables (suc k) (c ∷ s) = suc (name_length tables k s)
name_length tables zero (c ∷ s) =
    let width = if is_word c then 1 else if ltb c 128 then 0 else tables.letter_width (c ∷ s) in
    elim width [ zero ↦ 0 | suc k ↦ suc (name_length tables k s) ]

-- The text of a group: 0 is the whole match, 1 what stood in the quotes; no other has a text.
unfoldable pub group_text : Bytes → Bytes → Bytes → Bytes
group_text whole inner name =
    if same name (bytes "0") then whole else if same name (bytes "1") then inner else []

-- What the template's text behind a `$` stands for, and how many of its bytes that takes.
unfoldable pub reference : Unicode → Bytes → Bytes → Bytes → Bytes × ℕ
unfolding name_length group_text
reference tables whole inner t =
    if has_prefix t (bytes "$")
    then (bytes "$", 1)
    else if has_prefix t (bytes "{")
    then (let u = drop 1 t in
        let n = name_length tables 0 u in
        if ltb 0 n && has_prefix (drop n u) (bytes "}")
        then (group_text whole inner (take n u), n + 2)
        else (bytes "$", 0))
    else (let n = name_length tables 0 t in
        if ltb 0 n then (group_text whole inner (take n t), n) else (bytes "$", 0))

-- regexp.Expand, after `skip` bytes of the template that are used up
unfoldable pub expand : Unicode → Bytes → Bytes → ℕ → Bytes → Bytes
unfolding reference
expand tables whole inner skip [] = []
expand tables whole inner (suc k) (c ∷ t) = expand tables whole inner k t
expand tables whole inner zero (c ∷ t) =
    let r = reference tables whole inner t in
    let behind = expand tables whole inner r.1 t in
    let next = expand tables whole inner 0 t in if c == b'$' then r.0 ++ behind else c ∷ next

-- What the quotes of a match of length `n` hold.
abbrev inner_text : Bytes → ℕ → Bytes
inner_text s n = take (n - length option_head - length option_tail) (drop (length option_head) s)

-- goPackageRE.ReplaceAll, after `skip` bytes that belong to a match
unfoldable pub replace_all : Unicode → Bytes → Bool → ℕ → Bytes → Bytes
replace_all tables template at_start skip [] = []
replace_all tables template at_start (suc k) (c ∷ s) = replace_all tables template (c == b'\n') k s
replace_all tables template at_start zero (c ∷ s) =
    let n = match_length (c ∷ s) in
    let matched =
      expand tables (take n (c ∷ s)) (inner_text (c ∷ s) n) 0 template
      ++ replace_all tables template (c == b'\n') (n - 1) s in
    let next = c ∷ replace_all tables template (c == b'\n') 0 s in
    if at_start && ltb 0 n then matched else next

unfoldable pub go_package_option : Bytes → Bytes
go_package_option go_package = option_head ++ (go_package ++ option_tail)

unfoldable pub replace_go_package : Unicode → Bytes → Bytes → Result Bytes
replace_go_package tables content go_package =
    if has_option true content
    then ok (replace_all tables (go_package_option go_package) true 0 content)
    else err (message (bytes "proto file has no go_package option"))
