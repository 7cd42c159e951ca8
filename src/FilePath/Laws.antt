-- ===== src/FilePath/Laws.antt =====
-- Base, Ext and Dir of a path that is given by its names.
use web_template_go.Prelude.{
  ℕ, List, [], ◌∷◌, ◌++◌, false, none, some, ◌≡◌, ◌≢◌, refl, sym, ap, ◌∙◌, arith, ==_iff, take,
  drop, length, All, Option-cases, inl, inr, drop-length, take-append-drop,
}
use web_template_go.Text.{Bytes, same_iff, has_prefix, split, join, last_index, Lacks, split-join}
use web_template_go.FilePath.Names.{
  slash, dot_dot, IsName, clean, is_abs, show_names, walk, step, unstack,
}
use web_template_go.FilePath.Split.{last_name, last_part, dot_suffix}

last_index-Lacks : (s : Bytes) (c : ℕ) → Lacks c s → last_index s (c ∷ []) ≡ none
unfolding last_index has_prefix
last_index-Lacks [] c h = refl
last_index-Lacks (d ∷ s) c (hd, hs) = ground (arith, last_index-Lacks s c hs, ==_iff d c)

-- The last place of a byte that does not stand behind it.
pub last_index-append :
    (a t : Bytes) (c : ℕ) → Lacks c t → last_index (a ++ (c ∷ t)) (c ∷ []) ≡ some (length a)
unfolding last_index has_prefix
last_index-append [] t c h = ground (arith, last_index-Lacks t c h)
last_index-append (d ∷ a) t c h = ground (arith, last_index-append a t c h)

-- The extension of a name with one more dot behind `stem`.
pub dot_suffix-append : (stem t : Bytes) → Lacks b'.' t → dot_suffix (stem ++ (b'.' ∷ t)) ≡ b'.' ∷ t
unfolding dot_suffix
dot_suffix-append stem t h =
    rw (dot_suffix, last_index-append stem t b'.' h) (drop-length stem (b'.' ∷ t))

pub dot_suffix-eq :
    (n t : Bytes) → dot_suffix n ≡ b'.' ∷ t → (stem : Bytes) × (n ≡ stem ++ (b'.' ∷ t))
unfolding dot_suffix
dot_suffix-eq n t h = elim (Option-cases (last_index n (b'.' ∷ []))) [
  | inl e ↦ ground arith
  | inr (i, e) ↦
      let f : drop i n ≡ b'.' ∷ t = rw (dot_suffix, e) at h in
      (take i n, sym (take-append-drop i n) ∙ ap (λ u. take i n ++ u) f)
]

pub last_part-append : (ns : List Bytes) (n : Bytes) → last_part (ns ++ n ∷ []) ≡ n
unfolding last_part
last_part-append [] n = refl
last_part-append (m ∷ []) n = refl
last_part-append (m ∷ k ∷ ns) n = last_part-append (k ∷ ns) n

pub last_name-append : (ns : List Bytes) (n : Bytes) → n ≢ [] → last_name (ns ++ n ∷ []) ≡ some n
unfolding last_name
last_name-append [] n h = ground (arith, same_iff n [])
last_name-append (m ∷ ns) n h = rw (last_name-append ns n h)

pub All-IsName-Lacks : (ns : List Bytes) → All IsName ns → All (Lacks slash) ns
All-IsName-Lacks [] h = tt
All-IsName-Lacks (n ∷ ns) (h, hs) = (h.no_slash, All-IsName-Lacks ns hs)

-- The names of a text that is joined from names.
pub split-join_append :
    (ns : List Bytes) (n : Bytes)
    → All (Lacks slash) (ns ++ n ∷ [])
    → split (join (ns ++ n ∷ []) (slash ∷ [])) slash ≡ ns ++ n ∷ []
split-join_append [] n h = split-join n [] slash h
split-join_append (m ∷ ns) n h = split-join m (ns ++ n ∷ []) slash h

-- Clean does not change names that step down.
pub step-IsName : (n : Bytes) (st : List Bytes) → IsName n → step false n st ≡ n ∷ st
unfolding step
step-IsName n st h = ground (
  arith,
  same_iff n [],
  same_iff n (b'.' ∷ []),
  same_iff n dot_dot,
  h.ne_nil,
  h.ne_dot,
  h.ne_dot_dot,
)

unstack-unstack : (ns st : List Bytes) → All IsName ns → walk false ns st ≡ unstack st ns
unfolding walk unstack
unstack-unstack [] st h = refl
unstack-unstack (n ∷ ns) st (h, hs) = rw (step-IsName n st h) (unstack-unstack ns (n ∷ st) hs)

is_abs-IsName : (n : Bytes) (s : Bytes) → IsName n → is_abs (n ++ s) ≡ false
unfolding is_abs has_prefix
is_abs-IsName [] s h = absurd (h.ne_nil refl)
is_abs-IsName (c ∷ n) s h = ground (arith, h.no_slash)

pub is_abs-join :
    (n : Bytes) (ns : List Bytes) → IsName n → is_abs (join (n ∷ ns) (slash ∷ [])) ≡ false
unfolding join
is_abs-join [] ns h = absurd (h.ne_nil refl)
is_abs-join (c ∷ n) [] h = unfold is_abs has_prefix in ground (arith, h.no_slash)
is_abs-join (c ∷ n) (m ∷ ns) h = unfold is_abs has_prefix in ground (arith, h.no_slash)

pub clean-join :
    (n : Bytes) (ns : List Bytes)
    → All IsName (n ∷ ns)
    → clean (join (n ∷ ns) (slash ∷ [])) ≡ join (n ∷ ns) (slash ∷ [])
unfolding clean
clean-join n ns (h, hs) =
    rw
      (
        is_abs-join n ns h,
        split-join n ns slash (All-IsName-Lacks (n ∷ ns) (h, hs)),
        unstack-unstack (n ∷ ns) [] (h, hs),
      )
      (unfold unstack show_names in refl)
