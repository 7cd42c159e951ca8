-- ===== src/FilePath/File.antt =====
-- Base, Ext and Dir of a file below at least one directory.
use web_template_go.Prelude.{
  List, [], ◌∷◌, ◌++◌, false, ◌≡◌, ◌≢◌, refl, ap, ◌∙◌, All, All-append, take-suc-length,
}
use web_template_go.Text.{
  Bytes, same, has_prefix, split, join, Lacks, split-append, split-join, join-append,
}
use web_template_go.FilePath.Names.{slash, IsName, clean, is_abs, show_names, walk, step, unstack}
use web_template_go.FilePath.Split.{base, ext, dir, dot_suffix}
use web_template_go.FilePath.Laws.{
  last_index-append, last_part-append, last_name-append, split-join_append, All-IsName-Lacks,
  is_abs-join, step-IsName,
}

step-nil : (st : List Bytes) → step false [] st ≡ st
unfolding step same
step-nil st = refl

walk-trailing : (ns st : List Bytes) → All IsName ns → walk false (ns ++ [] ∷ []) st ≡ unstack st ns
unfolding walk
walk-trailing [] st h = ap (λ t. unstack t []) (step-nil st)
walk-trailing (n ∷ ns) st (h, hs) =
    rw (walk, step-IsName n st h) (unfold unstack in walk-trailing ns (n ∷ st) hs)

pub is_abs-append : (s t : Bytes) → s ≢ [] → is_abs s ≡ false → is_abs (s ++ t) ≡ false
unfolding is_abs has_prefix
is_abs-append [] t h e = absurd (h refl)
is_abs-append (c ∷ s) t h e = e

pub join-ne-nil : (n : Bytes) (ns : List Bytes) → IsName n → join (n ∷ ns) (slash ∷ []) ≢ []
unfolding join
join-ne-nil [] ns h e = absurd (h.ne_nil refl)
join-ne-nil (c ∷ n) [] h e = cc
join-ne-nil (c ∷ n) (m ∷ ns) h e = cc

-- A slash at the end is dropped.
clean-trailing :
    (n : Bytes) (ns : List Bytes)
    → All IsName (n ∷ ns)
    → clean (join (n ∷ ns) (slash ∷ []) ++ slash ∷ []) ≡ join (n ∷ ns) (slash ∷ [])
unfolding clean
clean-trailing n ns (h, hs) =
    let a = join (n ∷ ns) (slash ∷ []) in
    let e : split (a ++ slash ∷ []) slash ≡ (n ∷ ns) ++ [] ∷ [] =
      split-append a [] slash
      ∙ ap (λ l. l ++ split [] slash) (split-join n ns slash (All-IsName-Lacks (n ∷ ns) (h, hs)))
      ∙ unfold split in refl in
    rw
      (
        is_abs-append a (slash ∷ []) (join-ne-nil n ns h) (is_abs-join n ns h),
        e,
        walk-trailing (n ∷ ns) [] (h, hs),
      )
      (unfold unstack show_names in refl)

-- Dir drops what stands behind the last slash.
dir-append :
    (a file : Bytes) → Lacks slash file → dir (a ++ (slash ∷ file)) ≡ clean (a ++ slash ∷ [])
unfolding dir
dir-append a file h = rw (dir, last_index-append a file slash h, take-suc-length a file slash)

module _ (n : Bytes) (ns : List Bytes) (file : Bytes) (names : All IsName (n ∷ ns))
    (file_Lacks : Lacks slash file) where
  abbrev path : Bytes
  path = join ((n ∷ ns) ++ file ∷ []) (slash ∷ [])

  path-eq : path ≡ join (n ∷ ns) (slash ∷ []) ++ (slash ∷ file)
  path-eq = join-append (n ∷ ns) (file ∷ []) (slash ∷ []) (cc) (cc) ∙ unfold join in refl

  pub split-path : split path slash ≡ (n ∷ ns) ++ file ∷ []
  split-path = split-join_append (n ∷ ns) file (
      All-append (Lacks slash) (n ∷ ns) (file ∷ []) (All-IsName-Lacks (n ∷ ns) names)
        (file_Lacks, tt))

  pub base-path : file ≢ [] → base path ≡ file
  unfolding base
  base-path h = rw (base, split-path, last_name-append (n ∷ ns) file h) refl

  pub ext-path : ext path ≡ dot_suffix file
  unfolding ext
  ext-path = rw split-path (rw (last_part-append (n ∷ ns) file))

  pub dir-path : dir path ≡ join (n ∷ ns) (slash ∷ [])
  dir-path =
      ap dir path-eq
      ∙ dir-append (join (n ∷ ns) (slash ∷ [])) file file_Lacks
      ∙ clean-trailing n ns names
