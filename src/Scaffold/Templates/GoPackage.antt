-- ===== src/Scaffold/Templates/GoPackage.antt =====
-- The proto file of rewriteProtoAsCRUD has a go_package option for rewriteGoPackage to fill in.
use web_template_go.Prelude.{◌∷◌, ◌++◌, true, ◌≡◌, refl, ap, ◌∙◌, arith, drop, take, ◌<◌}
use web_template_go.Text.{Bytes, bytes, concat, concat-append, Unicode}
use web_template_go.Errors.{ok}
use web_template_go.Scaffold.GoPackageOption.{
  go_package_option, has_option, match_length, replace_go_package, replace_all, option_head,
  option_tail,
}
use web_template_go.Scaffold.GoPackageOption.Match.{match_length-option, has_option-line}
use web_template_go.Scaffold.Templates.Crud.{crud_pieces, crud_proto}

-- The option's line, whatever stands behind it.
placeholder :
    (rest : Bytes) → 0 < match_length (bytes "option go_package = \"placeholder\";\n" ++ rest)
placeholder rest =
    let e : bytes "option go_package = \"placeholder\";\n" ++ rest
        ≡ go_package_option (bytes "placeholder") ++ (b'\n' ∷ rest) =
      unfold bytes go_package_option option_head option_tail in refl in
    rw e (
      unfold bytes in
      rw (match_length-option b'p' (bytes "laceholder") (b'\n' ∷ rest) (omega arith))
        (unfold go_package_option option_head option_tail in omega arith))

crud_proto-has_option : (proto_rel : Bytes) → has_option true (crud_proto proto_rel) ≡ true
unfolding crud_proto crud_pieces
crud_proto-has_option proto_rel =
    let ps = crud_pieces proto_rel in
    let rest = concat (drop 7 ps) in
    let e : concat ps
        ≡ concat (take 5 ps) ++ (b'\n' ∷ (bytes "option go_package = \"placeholder\";\n" ++ rest)) =
      concat-append (take 5 ps) (drop 5 ps) ∙ unfold concat bytes in refl in
    e' e (has_option-line (concat (take 5 ps)) _ true (placeholder rest))
  where
    e' : {s t : Bytes} → s ≡ t → has_option true t ≡ true → has_option true s ≡ true
    e' p h = ap (has_option true) p ∙ h

-- In a CRUD run the step that sets the go_package finds its option, for every proto path and package.
pub crud_proto-replace_go_package :
    (tables : Unicode) (proto_rel go_package : Bytes)
    → (next : Bytes) × (replace_go_package tables (crud_proto proto_rel) go_package ≡ ok next)
unfolding replace_go_package
crud_proto-replace_go_package tables proto_rel go_package = (
  replace_all tables (go_package_option go_package) true 0 (crud_proto proto_rel),
  rw (crud_proto-has_option proto_rel),
)
