-- ===== src/Scaffold/ProtoPath/GoPackage.antt =====
-- The go_package of a valid proto path.
use web_template_go.Prelude.{
  [], ◌∷◌, ◌++◌, false, ◌≡◌, ◌≢◌, refl, sym, ap, subst, ◌∙◌, arith, All, All-append_left,
  All-append_right, unsnoc,
}
use web_template_go.Text.{Bytes, bytes, same, same_iff, join, trim_space, split, split-join}
use web_template_go.FilePath.Names.{slash, IsName}
use web_template_go.FilePath.Split.{base, last_part}
use web_template_go.FilePath.Laws.{last_part-append, All-IsName-Lacks}
use web_template_go.FilePath.File.{base-path, join-ne-nil}
use web_template_go.Errors.{ok}
use web_template_go.Scaffold.ProtoPath.{go_package_for_proto}
use web_template_go.Scaffold.ProtoPath.Shape.{ProtoPath, dirs, render, IsValid}
use web_template_go.Scaffold.ProtoPath.Views.{dir-render}

base-dirs : (p : ProtoPath) → IsValid p → base (join (dirs p) (slash ∷ [])) ≡ last_part (dirs p)
base-dirs p valid =
    let (ys, y, e) = unsnoc p.version p.deeper in
    let f : dirs p ≡ (p.pkg ∷ ys) ++ y ∷ [] = ap (λ l. p.pkg ∷ l) e in
    let h : All IsName ((p.pkg ∷ ys) ++ y ∷ []) = subst (All IsName) f valid.dirs_names in
    let name : IsName y = (All-append_right IsName (p.pkg ∷ ys) (y ∷ []) h).0 in
    ap (λ l. base (join l (slash ∷ []))) f
    ∙ base-path p.pkg ys y (All-append_left IsName (p.pkg ∷ ys) (y ∷ []) h) name.no_slash
        name.ne_nil
    ∙ sym (ap last_part f ∙ last_part-append (p.pkg ∷ ys) y)

-- Directories joined by slashes are no single name.
dirs-ne-dot : (p : ProtoPath) → IsValid p → join (dirs p) (slash ∷ []) ≢ bytes "."
unfolding bytes split
dirs-ne-dot p valid e =
    let f : split (join (dirs p) (slash ∷ [])) slash ≡ (b'.' ∷ []) ∷ [] = rw e refl in
    ground (
      arith,
      f,
      split-join p.pkg (p.version ∷ p.deeper) slash (All-IsName-Lacks (dirs p) valid.dirs_names),
    )

-- With a module path that is not blank, the go_package of a valid path is its directory below api of
-- the module, and its last directory names the package.
pub go_package_for_proto-render :
    (m : Bytes) (p : ProtoPath)
    → IsValid p
    → trim_space m ≢ []
    → go_package_for_proto m (render p)
      ≡ ok (
          trim_space m
          ++ (bytes "/api/" ++ (join (dirs p) (slash ∷ []) ++ (bytes ";" ++ last_part (dirs p)))))
unfolding go_package_for_proto
go_package_for_proto-render m p valid h =
    let a : same (trim_space m) [] ≡ false = ground (arith, same_iff (trim_space m) []) in
    let b : same (join (dirs p) (slash ∷ [])) (bytes ".") ≡ false =
      ground (arith, same_iff (join (dirs p) (slash ∷ [])) (bytes "."), dirs-ne-dot p valid) in
    let c : same (join (dirs p) (slash ∷ [])) [] ≡ false = ground (
      arith,
      same_iff (join (dirs p) (slash ∷ [])) [],
      join-ne-nil p.pkg (p.version ∷ p.deeper) valid.dirs_names.0,
    ) in
    rw a (rw (dir-render p valid) (rw b (rw c (rw (base-dirs p valid)))))
