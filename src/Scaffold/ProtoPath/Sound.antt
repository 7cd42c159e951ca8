-- ===== src/Scaffold/ProtoPath/Sound.antt =====
-- What NormalizeProtoPath accepts stays under api.
use web_template_go.Prelude.{
  ◌≤◌, List, [], ◌∷◌, ◌++◌, true, false, ◌≡◌, ◌≢◌, refl, sym, ap, ap₂, subst, ◌∙◌, inl, inr, arith,
  length, All, All-append_left, All-append_right, unsnoc, Bool-cases,
}
use web_template_go.Text.{
  Bytes, bytes, same, same_iff, has_prefix, contains, index, trim_space, split, join, Lacks,
  trim_prefix, trim_suffix, trim_suffix-append, join-split, split-has_prefix,
}
use web_template_go.FilePath.Names.{slash, dot_dot, IsName, is_abs, clean, show_names}
use web_template_go.FilePath.Clean.{IsNormal, All-IsName-IsNormal, clean-IsNormal}
use web_template_go.FilePath.Split.{base, ext, dot_suffix}
use web_template_go.FilePath.Laws.{dot_suffix-eq}
use web_template_go.FilePath.File.{base-path, ext-path}
use web_template_go.Errors.{ok}
use web_template_go.Scaffold.ProtoPath.{
  leads_out, base_name, check_proto_path, normalize_proto_path,
}
use web_template_go.Scaffold.ProtoPath.Shape.{ProtoPath, render, IsValid}

-- The tests that a path has passed.
record Passed (v : Bytes) : Type 0 where
  inside : leads_out v ≡ false
  extension : ext v ≡ bytes ".proto"
  named : base_name v ≢ []
  deep : 3 ≤ length (split v slash)

check-Passed : (v w : Bytes) → check_proto_path v ≡ ok w → Passed v × (w ≡ v)
unfolding check_proto_path
check-Passed v w h = (
  record {
    inside = ground arith;
    extension = ground (arith, same_iff (ext v) (bytes ".proto"));
    named = ground (arith, same_iff (base_name v) []);
    deep = ground arith;
  },
  ground arith,
)

dots-leads_out :
    (v : Bytes) (m : Bytes) (ns : List Bytes)
    → split v slash ≡ dot_dot ∷ m ∷ ns
    → leads_out v ≡ true
unfolding leads_out bytes join has_prefix
dots-leads_out v m ns e =
    let f : v ≡ dot_dot ++ (slash ∷ join (m ∷ ns) (slash ∷ [])) =
      sym (join-split v slash) ∙ ap (λ l. join l (slash ∷ [])) e in
    rw f refl

dots-only-leads_out : (v : Bytes) → split v slash ≡ dot_dot ∷ [] → leads_out v ≡ true
unfolding leads_out bytes join has_prefix same
dots-only-leads_out v e =
    let f : v ≡ dot_dot = sym (join-split v slash) ∙ ap (λ l. join l (slash ∷ [])) e in rw f refl

-- Where the tests do not show a way out, every name is a step down.
pub names-of-normal :
    (v : Bytes) (ns : List Bytes)
    → split v slash ≡ ns
    → IsNormal ns
    → leads_out v ≡ false
    → All IsName ns
names-of-normal v [] e h o = tt
names-of-normal v (n ∷ []) e (inl (d, h)) o = cc (dots-only-leads_out v (e ∙ ap (λ k. k ∷ []) d))
names-of-normal v (n ∷ m ∷ ns) e (inl (d, h)) o =
    cc (dots-leads_out v m ns (e ∙ ap (λ k. k ∷ m ∷ ns) d))
names-of-normal v (n ∷ ns) e (inr (h, hs)) o = (h, hs)

-- A path by its directories and its last name.
record Located (v : Bytes) : Type 0 where
  a : Bytes
  b : Bytes
  deeper : List Bytes
  last : Bytes
  spelled : v ≡ join ((a ∷ b ∷ deeper) ++ last ∷ []) (slash ∷ [])
  dirs_names : All IsName (a ∷ b ∷ deeper)
  last_name : IsName last

locate :
    (v : Bytes) (ns : List Bytes) → split v slash ≡ ns → All IsName ns → 3 ≤ length ns → Located v
locate v [] e h l = absurd (omega arith)
locate v (a ∷ []) e h l = absurd (omega arith)
locate v (a ∷ b ∷ []) e h l = absurd (omega arith)
locate v (a ∷ b ∷ c ∷ ns) e (ha, (hb, hs)) l =
    let (deeper, last, f) = unsnoc c ns in
    let hs' : All IsName (deeper ++ last ∷ []) = subst (All IsName) f hs in
    record {
      a = a;
      b = b;
      deeper = deeper;
      last = last;
      spelled =
          sym (join-split v slash) ∙ ap (λ k. join k (slash ∷ [])) (e ∙ ap (λ k. a ∷ b ∷ k) f);
      dirs_names = (ha, (hb, All-append_left IsName deeper (last ∷ []) hs'));
      last_name = (All-append_right IsName deeper (last ∷ []) hs').0;
    }

Located-IsValid :
    (v : Bytes) (l : Located v)
    → ext v ≡ bytes ".proto"
    → base_name v ≢ []
    → (p : ProtoPath) × IsValid p × (v ≡ render p)
unfolding base_name
Located-IsValid v l e h =
    let ds = l.a ∷ l.b ∷ l.deeper in
    let v' = join (ds ++ l.last ∷ []) (slash ∷ []) in
    let suffix : ext v ≡ dot_suffix l.last =
      ap ext l.spelled ∙ ext-path l.a (l.b ∷ l.deeper) l.last l.dirs_names l.last_name.no_slash in
    let (stem, f) =
      dot_suffix-eq l.last (unfold bytes in bytes "proto")
        (sym suffix ∙ e ∙ unfold bytes in refl) in
    let g : l.last ≡ stem ++ bytes ".proto" = f ∙ unfold bytes in refl in
    let base_last : base v ≡ l.last =
      ap base l.spelled
      ∙ base-path l.a (l.b ∷ l.deeper) l.last l.dirs_names l.last_name.no_slash
          l.last_name.ne_nil in
    let name : base_name v ≡ stem =
      ap₂ trim_suffix (base_last ∙ g) e ∙ trim_suffix-append stem (bytes ".proto") in
    (
      record { pkg = l.a; version = l.b; deeper = l.deeper; stem = stem },
      record {
        dirs_names = l.dirs_names;
        stem_Lacks =
            All-append_left (λ c. c ≢ slash) stem (bytes ".proto")
              (subst (Lacks slash) g l.last_name.no_slash);
        stem_ne_nil = λ z. h (name ∙ z);
      },
      l.spelled ∙ ap (λ k. join (ds ++ k ∷ []) (slash ∷ [])) g,
    )

-- A path that is "." or normal, and that passes the tests, has the shape.
check-IsValid :
    (v w : Bytes)
    → IsNormal (split v slash)
    → check_proto_path v ≡ ok w
    → (p : ProtoPath) × IsValid p × (w ≡ render p)
check-IsValid v w n h =
    let (t, e) = check-Passed v w h in
    let names = names-of-normal v (split v slash) refl n t.inside in
    let (p, ok_p, f) =
      Located-IsValid v (locate v (split v slash) refl names t.deep) t.extension t.named in
    (p, ok_p, e ∙ f)

-- Cleaned paths do not begin with "./".
trim-dot : (w : Bytes) → IsNormal (split w slash) → trim_prefix w (bytes "./") ≡ w
unfolding trim_prefix bytes
trim-dot w n = elim (Bool-cases (has_prefix w (bytes "./"))) [
  | inl h ↦
      absurd (no_dot _ (subst IsNormal (split-has_prefix w (b'.' ∷ []) slash (omega arith) h) n))
  | inr h ↦ rw h
]
  where
    no_dot : (ns : List Bytes) → IsNormal ((b'.' ∷ []) ∷ ns) → ⊥
    no_dot ns (inl (e, _)) = ground arith
    no_dot ns (inr (e, _)) = e.ne_dot refl

IsNormal-tail : (n : Bytes) (ns : List Bytes) → n ≢ dot_dot → IsNormal (n ∷ ns) → IsNormal ns
IsNormal-tail n ns d (inl (e, h)) = h
IsNormal-tail n ns d (inr (h, hs)) = All-IsName-IsNormal ns hs

trim-api :
    (w : Bytes) → IsNormal (split w slash) → IsNormal (split (trim_prefix w (bytes "api/")) slash)
unfolding trim_prefix bytes
trim-api w n = elim (Bool-cases (has_prefix w (bytes "api/"))) [
  | inl h ↦ rw h (
      IsNormal-tail (bytes "api") _ (cc)
        (subst IsNormal (split-has_prefix w (bytes "api") slash (omega arith) h) n))
  | inr h ↦ rw h n
]

dot-refused :
    (w : Bytes)
    → check_proto_path (trim_prefix (trim_prefix (b'.' ∷ []) (bytes "./")) (bytes "api/")) ≢ ok w
unfolding check_proto_path trim_prefix has_prefix bytes leads_out base split same contains index
dot-refused w h = cc

pub is_abs-clean : (s : Bytes) → is_abs s ≡ true → is_abs (clean s) ≡ true
unfolding clean show_names is_abs has_prefix
is_abs-clean s h = ground arith

-- Whatever NormalizeProtoPath accepts is a package, a version, perhaps further directories, each a
-- single step down, and a file with a name before ".proto".
pub normalize_proto_path-IsValid :
    (path v : Bytes)
    → normalize_proto_path path ≡ ok v
    → (p : ProtoPath) × IsValid p × (v ≡ render p)
unfolding normalize_proto_path
normalize_proto_path-IsValid path v h =
    let s = trim_space path in
    let w = clean s in
    let not_abs : is_abs w ≡ false = ground arith in
    let checked : check_proto_path (trim_prefix (trim_prefix w (bytes "./")) (bytes "api/"))
        ≡ ok v =
      ground arith in
    let relative : is_abs s ≡ false = ground (arith, is_abs-clean s) in
    elim (clean-IsNormal s relative) [
      | inl e ↦ absurd (dot-refused v (rw e at checked))
      | inr n ↦
          check-IsValid _ v (trim-api w n) (
            ap (λ u. check_proto_path (trim_prefix u (bytes "api/"))) (sym (trim-dot w n))
            ∙ checked)
    ]
