-- ===== src/Scaffold/ProtoPath/Complete.antt =====
-- NormalizeProtoPath accepts every valid path as it is, and below "api/".
use web_template_go.Prelude.{
  ℕ, ◌≤◌, List, [], ◌∷◌, ◌++◌, true, false, ◌≡◌, ◌≢◌, refl, sym, ap, subst, ◌∙◌, arith, length,
  length-append, All, All-append, All-append_right, Bool-cases, inl, inr, append_assoc,
}
use web_template_go.Text.{
  Bytes, bytes, same, same_iff, has_prefix, contains, contains_iff, split, join, Lacks, trim_prefix,
  split-has_prefix, split-append, split-Lacks, trim_space, trim_space_ends, join_ends, join-cons,
  is_visible,
}
use web_template_go.FilePath.Names.{slash, dot_dot, IsName, is_abs, clean}
use web_template_go.FilePath.Split.{base, ext}
use web_template_go.FilePath.Laws.{clean-join, is_abs-join}
use web_template_go.FilePath.File.{join-ne-nil}
use web_template_go.Errors.{ok}
use web_template_go.Scaffold.ProtoPath.{
  leads_out, base_name, check_proto_path, normalize_proto_path,
}
use web_template_go.Scaffold.ProtoPath.Shape.{ProtoPath, dirs, file, render, IsValid}
use web_template_go.Scaffold.ProtoPath.Views.{
  split-render, base-render, ext-render, base_name-render,
}

normalize-by :
    (path s w v : Bytes)
    → trim_space path ≡ s
    → same s [] ≡ false
    → clean s ≡ w
    → is_abs w ≡ false
    → trim_prefix (trim_prefix w (bytes "./")) (bytes "api/") ≡ v
    → check_proto_path v ≡ ok v
    → normalize_proto_path path ≡ ok v
unfolding normalize_proto_path
normalize-by path s w v a b c d e f = rw a (rw b (rw c (rw d (rw e f))))

abbrev head_or : Bytes → List Bytes → Bytes
head_or d [] = d
head_or d (n ∷ ns) = n

file-IsName : (stem : Bytes) → Lacks slash stem → IsName (stem ++ bytes ".proto")
unfolding bytes
file-IsName stem l = record {
  no_slash = All-append (λ d. d ≢ slash) stem (bytes ".proto") l (omega arith);
  ne_nil = λ e. omega (arith, ap length e, length-append stem (bytes ".proto"));
  ne_dot = λ e. omega (arith, ap length e, length-append stem (bytes ".proto"));
  ne_dot_dot = λ e. omega (arith, ap length e, length-append stem (bytes ".proto"));
}

-- No name of a text is "..": then none of the tests by which a path leads out is met.
leads_out-names :
    (v : Bytes) → 2 ≤ length (split v slash) → All IsName (split v slash) → leads_out v ≡ false
unfolding leads_out bytes
leads_out-names v l h = elim (Bool-cases (has_prefix v (dot_dot ++ slash ∷ []))) [
  | inl a ↦
      absurd (
        (subst (All IsName) (split-has_prefix v dot_dot slash (omega arith) a) h).0.ne_dot_dot refl)
  | inr a ↦ elim (Bool-cases (same v dot_dot)) [
    | inl b ↦ absurd (omega (arith, one_name ((same_iff v dot_dot).0 b)))
    | inr b ↦ elim (Bool-cases (contains v (slash ∷ (dot_dot ++ slash ∷ [])))) [
      | inl c ↦ absurd (inner ((contains_iff v (slash ∷ (dot_dot ++ slash ∷ []))).0 c))
      | inr c ↦ rw (a, b, c)
    ]
  ]
]
  where
    one_name : v ≡ dot_dot → length (split v slash) ≡ 1
    one_name e = rw e (rw (split-Lacks dot_dot slash (omega arith)))

    inner : (x : Bytes) × (y : Bytes) × (v ≡ x ++ ((slash ∷ (dot_dot ++ slash ∷ [])) ++ y)) → ⊥
    inner (x, y, e) =
        let f : split v slash ≡ split x slash ++ (dot_dot ∷ split y slash) =
          ap (λ u. split u slash) e
          ∙ split-append x (dot_dot ++ (slash ∷ y)) slash
          ∙ ap (λ l. split x slash ++ l)
              (split-append dot_dot y slash
                ∙ ap (λ l. l ++ split y slash) (split-Lacks dot_dot slash (omega arith))) in
        (All-append_right IsName (split x slash) _ (subst (All IsName) f h)).0.ne_dot_dot refl

module _ (p : ProtoPath) (valid : IsValid p) where
  names : All IsName (dirs p ++ file p ∷ [])
  names =
      All-append IsName (dirs p) (file p ∷ []) valid.dirs_names
        (file-IsName p.stem valid.stem_Lacks, tt)

  deep : 3 ≤ length (split (render p) slash)
  deep = rw (split-render p valid) (omega (arith, length-append (dirs p) (file p ∷ [])))

  inside : leads_out (render p) ≡ false
  inside =
      leads_out-names (render p) (omega (arith, deep))
        (subst (All IsName) (sym (split-render p valid)) names)

  base_test : same (base (render p)) (bytes ".") ≡ false
  base_test =
      let h : file p ≢ bytes "." = unfold bytes in (file-IsName p.stem valid.stem_Lacks).ne_dot in
      rw (base-render p valid) (ground (arith, same_iff (file p) (bytes "."), h))

  ext_test : same (ext (render p)) (bytes ".proto") ≡ true
  ext_test = (same_iff _ _).1 (ext-render p valid)

  name_test : same (base_name (render p)) [] ≡ false
  name_test = rw (base_name-render p valid) (ground (arith, same_iff p.stem [], valid.stem_ne_nil))

  pub check-render : check_proto_path (render p) ≡ ok (render p)
  unfolding check_proto_path
  check-render = ground (arith, inside, base_test, ext_test, name_test, deep)

  clean-render : clean (render p) ≡ render p
  clean-render = clean-join p.pkg (p.version ∷ p.deeper ++ file p ∷ []) names

  -- A prefix of one name is there only if it is the first name.
  no_prefix :
      (n : Bytes) → Lacks slash n → n ≢ p.pkg → has_prefix (render p) (n ++ slash ∷ []) ≡ false
  no_prefix n l d = elim (Bool-cases (has_prefix (render p) (n ++ slash ∷ []))) [
    | inl h ↦
        absurd (
          d (ap (head_or n) (sym (split-has_prefix (render p) n slash l h) ∙ split-render p valid)))
    | inr h ↦ h
  ]

  no_dot : trim_prefix (render p) (bytes "./") ≡ render p
  unfolding bytes trim_prefix
  no_dot = rw (no_prefix (b'.' ∷ []) (omega arith) (λ e. valid.dirs_names.0.ne_dot (sym e)))

  ends : (m : Bytes) × (render p ≡ m ++ b'o' ∷ [])
  ends =
      let (m, e) = join_ends (dirs p) p.stem (bytes ".proto") (slash ∷ []) in
      (m ++ bytes ".prot", e ∙ unfold bytes in simp append_assoc)

  no_api : bytes "api" ≢ p.pkg → trim_prefix (render p) (bytes "api/") ≡ render p
  unfolding trim_prefix bytes
  no_api h = rw (no_prefix (bytes "api") (omega arith) h)

  render-ne-nil : same (render p) [] ≡ false
  render-ne-nil = ground (
    arith,
    same_iff (render p) [],
    join-ne-nil p.pkg (p.version ∷ p.deeper ++ file p ∷ []) valid.dirs_names.0,
  )

  is_abs-render : is_abs (render p) ≡ false
  is_abs-render = is_abs-join p.pkg (p.version ∷ p.deeper ++ file p ∷ []) valid.dirs_names.0

  normalize-trimmed :
      trim_space (render p) ≡ render p
      → bytes "api" ≢ p.pkg
      → normalize_proto_path (render p) ≡ ok (render p)
  normalize-trimmed t h =
      normalize-by (render p) (render p) (render p) (render p) t render-ne-nil clean-render
        is_abs-render (ap (λ u. trim_prefix u (bytes "api/")) no_dot ∙ no_api h) check-render

  abbrev below_api : Bytes
  below_api = bytes "api/" ++ render p

  below_api-join : below_api ≡ join (bytes "api" ∷ dirs p ++ file p ∷ []) (slash ∷ [])
  unfolding bytes
  below_api-join = sym (join-cons (bytes "api") (dirs p ++ file p ∷ []) (slash ∷ []) (cc))

  api_names : All IsName (bytes "api" ∷ dirs p ++ file p ∷ [])
  unfolding bytes
  api_names = (record { no_slash = omega arith; ne_nil = cc; ne_dot = cc; ne_dot_dot = cc }, names)

  clean-below_api : clean below_api ≡ below_api
  clean-below_api = rw below_api-join (clean-join (bytes "api") (dirs p ++ file p ∷ []) api_names)

  trim-below_api : trim_space below_api ≡ below_api
  unfolding bytes
  trim-below_api =
      let (m, e) = ends in
      trim_space_ends b'a' b'o' (bytes "pi/" ++ render p) (bytes "api/" ++ m) refl refl
        (ap (λ u. bytes "api/" ++ u) e)

  cut-below_api : trim_prefix (trim_prefix below_api (bytes "./")) (bytes "api/") ≡ render p
  unfolding bytes trim_prefix has_prefix
  cut-below_api = refl

  below_api-ne-nil : same below_api [] ≡ false
  unfolding bytes same
  below_api-ne-nil = refl

  is_abs-below_api : is_abs below_api ≡ false
  unfolding bytes is_abs has_prefix
  is_abs-below_api = refl

  -- A valid path below "api/" is accepted, with the prefix cut.
  pub normalize_proto_path-api : normalize_proto_path (bytes "api/" ++ render p) ≡ ok (render p)
  normalize_proto_path-api =
      normalize-by below_api below_api below_api (render p) trim-below_api below_api-ne-nil
        clean-below_api is_abs-below_api cut-below_api check-render

starts-render :
    (p : ProtoPath) (c : ℕ) (s : Bytes) → p.pkg ≡ c ∷ s → (t : Bytes) × (render p ≡ c ∷ t)
unfolding join
starts-render p c s e =
    let rest = join (p.version ∷ p.deeper ++ file p ∷ []) (slash ∷ []) in
    (s ++ (slash ∷ rest), ap (λ n. n ++ (slash ∷ rest)) e)

-- A valid path is accepted as it is, if it begins with a visible byte and with a package other than
-- "api".
pub normalize_proto_path-render :
    (p : ProtoPath) (c : ℕ) (s : Bytes)
    → IsValid p
    → p.pkg ≡ c ∷ s
    → is_visible c ≡ true
    → p.pkg ≢ bytes "api"
    → normalize_proto_path (render p) ≡ ok (render p)
normalize_proto_path-render p c s valid starts visible other =
    let (t, e) = starts-render p c s starts in
    let (m, f) = ends p valid in
    let trimmed : trim_space (render p) ≡ render p =
      ap trim_space e ∙ trim_space_ends c b'o' t m visible refl (sym e ∙ f) ∙ sym e in
    normalize-trimmed p valid trimmed (λ q. other (sym q))
