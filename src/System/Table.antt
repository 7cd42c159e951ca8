-- ===== src/System/Table.antt =====
-- `map[string]string` as an association list, and copyChecks. Go's order of iteration is not
-- determined; the copy is stated for the order of the list, and looks up alike for any.
use web_template_go.Prelude.{
  List, [], ◌∷◌, Bool, true, false, ◌≡◌, refl, arith, if◌then◌else◌, ap, ◌||◌, sym,
}
use web_template_go.Text.{Bytes, same, same_iff}

abbrev pub Checks : Type 0
Checks = List (Bytes × Bytes)

-- m[key], which is "" where the key is missing
unfoldable pub get : Bytes → Checks → Bytes
get key [] = []
get key ((k, v) ∷ m) = if same k key then v else get key m

-- m[key] = value
unfoldable pub insert : Bytes → Bytes → Checks → Checks
insert key value [] = (key, value) ∷ []
insert key value ((k, v) ∷ m) =
    let rest = insert key value m in if same k key then (key, value) ∷ m else (k, v) ∷ rest

unfoldable pub copy_from : Checks → Checks → Checks
copy_from [] dst = dst
copy_from ((k, v) ∷ src) dst = copy_from src (insert k v dst)

unfoldable pub copy_checks : Checks → Checks
unfolding copy_from
copy_checks src = copy_from src []

pub get-insert :
    (key j value : Bytes) (m : Checks)
    → get j (insert key value m) ≡ (if same key j then value else get j m)
unfolding get insert
get-insert key j value [] = refl
get-insert key j value ((k, v) ∷ m) =
    ground (arith, get-insert key j value m, same_iff k key, same_iff key j, same_iff k j)

-- Whether a key is there.
abbrev pub has : Bytes → Checks → Bool
has j [] = false
has j ((k, v) ∷ m) = same k j || has j m

-- No key is there twice, as in any map.
abbrev pub IsMap : Checks → Type 0
IsMap [] = Unit
IsMap ((k, v) ∷ m) = (has k m ≡ false) × IsMap m

has-insert :
    (key j value : Bytes) (m : Checks) → has j (insert key value m) ≡ (same key j || has j m)
unfolding insert
has-insert key j value [] = refl
has-insert key j value ((k, v) ∷ m) =
    ground (arith, has-insert key j value m, same_iff k key, same_iff key j, same_iff k j)

pub insert-IsMap : (key value : Bytes) (m : Checks) → IsMap m → IsMap (insert key value m)
unfolding insert
insert-IsMap key value [] h = (refl, tt)
insert-IsMap key value ((k, v) ∷ m) (h, hs) =
    ground
      (arith, insert-IsMap key value m hs, has-insert key k value m, same_iff k key, same_iff key k)

get-missing : (j : Bytes) (m : Checks) → has j m ≡ false → get j m ≡ []
unfolding get
get-missing j [] h = refl
get-missing j ((k, v) ∷ m) h = ground (arith, get-missing j m)

has-same : (k j : Bytes) (m : Checks) → same k j ≡ true → has j m ≡ has k m
has-same k j m h = ap (λ x. has x m) (sym ((same_iff k j).0 h))

copy_from-get :
    (j : Bytes) (src dst : Checks)
    → IsMap src
    → get j (copy_from src dst) ≡ (if has j src then get j src else get j dst)
unfolding copy_from get
copy_from-get j [] dst h = refl
copy_from-get j ((k, v) ∷ src) dst (h, hs) = ground (
  arith,
  copy_from-get j src (insert k v dst) hs,
  get-insert k j v dst,
  same_iff k j,
  has-same k j src,
)

-- A copy of a map looks up alike.
pub get-copy_checks : (j : Bytes) (m : Checks) → IsMap m → get j (copy_checks m) ≡ get j m
unfolding copy_checks get
get-copy_checks j m h = ground (arith, copy_from-get j m [] h, get-missing j m)

copy_from-IsMap : (src dst : Checks) → IsMap dst → IsMap (copy_from src dst)
unfolding copy_from
copy_from-IsMap [] dst h = h
copy_from-IsMap ((k, v) ∷ src) dst h = copy_from-IsMap src (insert k v dst) (insert-IsMap k v dst h)

pub copy_checks-IsMap : (m : Checks) → IsMap (copy_checks m)
unfolding copy_checks
copy_checks-IsMap m = copy_from-IsMap m [] tt
