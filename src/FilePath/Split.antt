-- ===== src/FilePath/Split.antt =====
-- filepath.Base, Ext, Dir and Join.
use web_template_go.Prelude.{suc, List, [], ◌∷◌, Option, none, some, if◌then◌else◌, take, drop}
use web_template_go.Text.{Bytes, same, split, join, last_index}
use web_template_go.FilePath.Names.{slash, clean}

-- The last name that is not empty.
unfoldable pub last_name : List Bytes → Option Bytes
last_name [] = none
last_name (n ∷ ns) = elim (last_name ns) [
  | some m ↦ some m
  | none ↦ if same n [] then none else some n
]

-- filepath.Base(s)
unfoldable pub base : Bytes → Bytes
unfolding last_name
base s = elim (last_name (split s slash)) [
  | some n ↦ n
  | none ↦ if same s [] then b'.' ∷ [] else slash ∷ []
]

-- What stands behind the last slash.
unfoldable pub last_part : List Bytes → Bytes
last_part [] = []
last_part (n ∷ []) = n
last_part (n ∷ m ∷ ns) = last_part (m ∷ ns)

-- The suffix from the last dot.
unfoldable pub dot_suffix : Bytes → Bytes
dot_suffix n = elim (last_index n (b'.' ∷ [])) [ some i ↦ drop i n | none ↦ [] ]

-- filepath.Ext(s)
unfoldable pub ext : Bytes → Bytes
ext s = dot_suffix (last_part (split s slash))

-- filepath.Dir(s)
unfoldable pub dir : Bytes → Bytes
dir s = elim (last_index s (slash ∷ [])) [ some i ↦ clean (take (suc i) s) | none ↦ clean [] ]

-- filepath.Join(elems...)
unfoldable pub join_path : List Bytes → Bytes
join_path [] = []
join_path ([] ∷ elems) = join_path elems
join_path ((c ∷ s) ∷ elems) = clean (join ((c ∷ s) ∷ elems) (slash ∷ []))
