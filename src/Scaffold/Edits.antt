-- ===== src/Scaffold/Edits.antt =====
-- The edits of existing files of internal/scaffold/proto.go, as functions on the files' texts:
-- updateProviderSet, addImport, registerServiceInServer and injectConfigEntry. Scaffold.Files reads
-- and writes the files around them.
pub mod Insert
pub mod Provider
pub mod Import
pub mod Register
pub mod Config
use web_template_go.Prelude.{
  ℕ, zero, suc, ◌+◌, ◌-◌, List, [], ◌∷◌, ◌++◌, Bool, true, false, Option, none, some, if◌then◌else◌,
  ◌==◌, take, drop, length,
}
use web_template_go.Text.{
  Bytes, bytes, has_prefix, has_suffix, contains, index, last_index, split, join, trim_space,
  trim_right, Unicode,
}
use web_template_go.Errors.{Error, message, Result, ok, err}
use web_template_go.Scaffold.ProtoPath.{base_name}
use web_template_go.Scaffold.Naming.{singularize, lower_camel}

-- What is done to a file: nothing, or os.WriteFile with a new text.
pub data Edit : Type 0 where
  keep : Edit
  write : Bytes → Edit

-- str[:i] + insert + str[i:]
unfoldable pub insert_at : ℕ → Bytes → Bytes → Bytes
insert_at i insert str = take i str ++ (insert ++ drop i str)

-- The text that updateProviderSet puts before the closing parenthesis at `idx`.
unfoldable pub provider_insert : Bytes → ℕ → Bytes → Bytes
provider_insert str idx constructor_name =
    if has_suffix (trim_right (take idx str) (bytes " \t")) (bytes "\n")
    then bytes "\t" ++ (constructor_name ++ bytes ",\n")
    else bytes ", " ++ constructor_name

unfoldable pub update_provider_set : Bytes → Bytes → Bytes → Result Edit
update_provider_set path str constructor_name =
    if contains str constructor_name then ok keep else elim (last_index str (bytes ")")) [
      | none ↦ err (message (bytes "cannot find closing paren in " ++ path))
      | some idx ↦ ok (write (insert_at idx (provider_insert str idx constructor_name) str))
    ]

-- The loop of addImport over the lines, from the one with number `i`: the place of the line that
-- closes the import block.
unfoldable pub find_close : List Bytes → ℕ → Bool → ℕ → Option ℕ
find_close [] i in_import paren_depth = none
find_close (line ∷ lines) i in_import paren_depth =
    let trimmed = trim_space line in
    let opens = contains trimmed (bytes "(") in
    let closes = contains trimmed (bytes ")") in
    let depth = if opens then paren_depth + 1 else paren_depth in
    let after_open = find_close lines (suc i) true (paren_depth + 1) in
    let same_state = find_close lines (suc i) in_import paren_depth in
    let after_close = find_close lines (suc i) true (depth - 1) in
    let inside = find_close lines (suc i) true depth in
    if has_prefix trimmed (bytes "import")
    then (if opens then after_open else same_state)
    else if in_import
    then (if closes then (if depth - 1 == 0 then some i else after_close) else inside)
    else same_state

unfoldable pub import_line : Bytes → Bytes → Bytes
import_line alias import_path =
    bytes "\t" ++ (alias ++ (bytes " \"" ++ (import_path ++ bytes "\"")))

unfoldable pub quoted : Bytes → Bytes
quoted import_path = bytes "\"" ++ (import_path ++ bytes "\"")

unfoldable pub add_import : Bytes → Bytes → Bytes → Bytes
add_import content alias import_path =
    if contains content (quoted import_path)
    then content
    else let lines = split content b'\n' in
      elim (find_close lines 0 false 0) [
        | none ↦ content
        | some i ↦
            join (take i lines ++ (import_line alias import_path ∷ drop i lines)) (bytes "\n")
      ]

unfoldable pub register_call : Unicode → Bytes → Bytes → Bool → Bytes
register_call table svc_name proto_pkg is_grpc =
    let arguments = bytes "(srv, " ++ (lower_camel table (singularize svc_name) ++ bytes ")") in
    if is_grpc
    then proto_pkg ++ (bytes ".Register" ++ (svc_name ++ (bytes "Server" ++ arguments)))
    else proto_pkg ++ (bytes ".Register" ++ (svc_name ++ (bytes "HTTPServer" ++ arguments)))

-- Where the server is made: "srv := ", or else "srv:=".
unfoldable pub find_server : Bytes → Option ℕ
find_server str = elim (index str (bytes "srv := ")) [
  | some idx ↦ some idx
  | none ↦ index str (bytes "srv:=")
]

-- The end of the line at `idx`.
unfoldable pub line_end : Bytes → ℕ → ℕ
line_end str idx = elim (index (drop idx str) (bytes "\n")) [
  | some eol ↦ idx + eol
  | none ↦ idx + (length str - idx)
]

unfoldable pub register_service :
    Unicode → Bytes → Bytes → Bytes → Bytes → Bytes → Bool → Result Edit
register_service table file_path str svc_name import_path proto_pkg is_grpc =
    let call = register_call table svc_name proto_pkg is_grpc in
    if contains str call
    then ok keep
    else let imported = add_import str proto_pkg import_path in
      elim (find_server imported) [
        | none ↦ err (message (bytes "cannot find 'srv :=' in " ++ file_path))
        | some idx ↦ ok (write (insert_at (line_end imported idx) (bytes "\n\t" ++ call) imported))
      ]

unfoldable pub config_entry : Bytes → Bytes
config_entry base = bytes "    " ++ (base ++ bytes ":")

unfoldable pub config_block : Bytes → Bytes
config_block base =
    config_entry base
    ++ (bytes "\n      enabled: false\n      target: \""
        ++ (base ++ bytes ":9000\"\n      timeout: 500ms\n      circuitbreaker_enabled: false\n"))

-- Where the block goes once "remote_grpc:" stands at `idx`.
unfoldable pub add_block : Bytes → ℕ → Bytes → Bytes
add_block str idx block = elim (index (drop idx str) (bytes "\n")) [
  | none ↦ str ++ (bytes "\n" ++ block)
  | some eol ↦ insert_at (idx + eol + 1) block str
]

unfoldable pub inject_config_entry : Bytes → Bytes → Edit
inject_config_entry str proto_rel =
    let base = base_name proto_rel in
    if contains str (config_entry base) then keep else elim (index str (bytes "remote_grpc:")) [
      | none ↦
          write (trim_right str (bytes "\n") ++ (bytes "\n\nremote_grpc:\n" ++ config_block base))
      | some idx ↦ write (add_block str idx (config_block base))
    ]
