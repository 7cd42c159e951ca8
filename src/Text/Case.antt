-- ===== src/Text/Case.antt =====
-- strings.ToLower and strings.ToUpper. On ASCII texts they are written out; beyond, they map the
-- letters by the Unicode tables of Go's library, which are a parameter.
use web_template_go.Prelude.{ℕ, ◌+◌, ◌-◌, [], ◌∷◌, Bool, true, ◌&&◌, leb, ltb, map, if◌then◌else◌}
use web_template_go.Text.Basic.{Bytes}

-- What ToLower and ToUpper make of a text that is not ASCII, and how many bytes the letter or digit
-- at the start of a text takes, if there is one beyond ASCII.
pub record Unicode : Type 0 where
  pub lower : Bytes → Bytes
  pub upper : Bytes → Bytes
  pub letter_width : Bytes → ℕ

unfoldable pub is_ascii : Bytes → Bool
is_ascii [] = true
is_ascii (c ∷ s) = ltb c 128 && is_ascii s

unfoldable pub lower_byte : ℕ → ℕ
lower_byte c = if leb b'A' c && leb c b'Z' then c + 32 else c

unfoldable pub upper_byte : ℕ → ℕ
upper_byte c = if leb b'a' c && leb c b'z' then c - 32 else c

-- strings.ToLower(s)
unfoldable pub to_lower : Unicode → Bytes → Bytes
unfolding is_ascii lower_byte
to_lower table s = if is_ascii s then map lower_byte s else table.lower s

-- strings.ToUpper(s)
unfoldable pub to_upper : Unicode → Bytes → Bytes
unfolding is_ascii upper_byte
to_upper table s = if is_ascii s then map upper_byte s else table.upper s

-- strings.ToUpper of a text of one byte. A lone byte beyond ASCII is no valid UTF-8, which ToUpper
-- replaces by U+FFFD.
unfoldable pub to_upper_one : ℕ → Bytes
unfolding upper_byte
to_upper_one c = if ltb c 128 then upper_byte c ∷ [] else 0xEF ∷ 0xBF ∷ 0xBD ∷ []

-- Tables that leave every text as it is; a value of the parameter for tests.
abbrev pub plain_tables : Unicode
plain_tables = record { lower = λ s. s; upper = λ s. s; letter_width = λ s. 0 }
