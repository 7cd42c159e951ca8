-- ===== src/FilePath/Names.antt =====
-- Paths as lists of names, and filepath.Clean.
use web_template_go.Prelude.{ℕ, List, [], ◌∷◌, Bool, true, false, ◌||◌, ◌≢◌, if◌then◌else◌}
use web_template_go.Text.{Bytes, same, has_prefix, split, join, Lacks}

abbrev pub slash : ℕ
slash = b'/'

abbrev pub dot_dot : Bytes
dot_dot = b'.' ∷ b'.' ∷ []

-- A name that says one step down.
pub record IsName (n : Bytes) : Type 0 where
  pub no_slash : Lacks slash n
  pub ne_nil : n ≢ []
  pub ne_dot : n ≢ b'.' ∷ []
  pub ne_dot_dot : n ≢ dot_dot

-- What ".." does to the names before it, which are listed backwards.
unfoldable pub step_up : Bool → List Bytes → List Bytes
step_up true [] = []
step_up false [] = dot_dot ∷ []
step_up rooted (n ∷ stack) = if same n dot_dot then dot_dot ∷ n ∷ stack else stack

unfoldable pub step : Bool → Bytes → List Bytes → List Bytes
unfolding step_up
step rooted n stack =
    if same n [] || same n (b'.' ∷ [])
    then stack
    else if same n dot_dot
    then step_up rooted stack
    else n ∷ stack

-- `stack` backwards, before `names`
unfoldable pub unstack : List Bytes → List Bytes → List Bytes
unstack [] names = names
unstack (n ∷ stack) names = unstack stack (n ∷ names)

unfoldable pub walk : Bool → List Bytes → List Bytes → List Bytes
unfolding step unstack
walk rooted [] stack = unstack stack []
walk rooted (n ∷ names) stack = walk rooted names (step rooted n stack)

unfoldable pub is_abs : Bytes → Bool
is_abs s = has_prefix s (slash ∷ [])

unfoldable pub show_names : Bool → List Bytes → Bytes
show_names true names = slash ∷ join names (slash ∷ [])
show_names false [] = b'.' ∷ []
show_names false (n ∷ names) = join (n ∷ names) (slash ∷ [])

-- filepath.Clean(s)
unfoldable pub clean : Bytes → Bytes
clean s = show_names (is_abs s) (walk (is_abs s) (split s slash) [])
