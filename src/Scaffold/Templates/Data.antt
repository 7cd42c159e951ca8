-- ===== src/Scaffold/Templates/Data.antt =====
-- The text of the file that writeDataStub writes.
use web_template_go.Prelude.{◌++◌, List, [], ◌∷◌, Bool, if◌then◌else◌}
use web_template_go.Text.{Bytes, bytes, concat, Unicode}
use web_template_go.Scaffold.Naming.{singularize, lower_camel}
use web_template_go.Text.{join}
use web_template_go.Scaffold.Templates.Names.{
  model_name, interface_name, repo_name, data_constructor,
}

crud_method_impls : Unicode → Bytes → Bytes
crud_method_impls tables base =
    let model = model_name base in
    let repo = repo_name tables base in
    let variable = lower_camel tables (singularize base) in
    concat (
      bytes "func (r *"
      ∷ repo
      ∷ bytes ") Create(ctx context.Context, "
      ∷ variable
      ∷ bytes " *biz."
      ∷ model
      ∷ bytes ") (*biz."
      ∷ model
      ∷ bytes ", error) {\n"
      ∷ bytes "\t// TODO: implement with actual persistence (e.g. GORM, MongoDB)\n"
      ∷ bytes "\treturn nil, fmt.Errorf(\"not implemented\")\n"
      ∷ bytes "}\n"
      ∷ bytes "\n"
      ∷ bytes "func (r *"
      ∷ repo
      ∷ bytes ") Get(ctx context.Context, id string) (*biz."
      ∷ model
      ∷ bytes ", error) {\n"
      ∷ bytes "\t// TODO: implement with actual persistence\n"
      ∷ bytes "\treturn nil, fmt.Errorf(\"not implemented\")\n"
      ∷ bytes "}\n"
      ∷ bytes "\n"
      ∷ bytes "func (r *"
      ∷ repo
      ∷ bytes ") List(ctx context.Context, page, pageSize int32) ([]*biz."
      ∷ model
      ∷ bytes ", int32, error) {\n"
      ∷ bytes "\t// TODO: implement with actual persistence\n"
      ∷ bytes "\treturn nil, 0, fmt.Errorf(\"not implemented\")\n"
      ∷ bytes "}\n"
      ∷ bytes "\n"
      ∷ bytes "func (r *"
      ∷ repo
      ∷ bytes ") Update(ctx context.Context, "
      ∷ variable
      ∷ bytes " *biz."
      ∷ model
      ∷ bytes ") (*biz."
      ∷ model
      ∷ bytes ", error) {\n"
      ∷ bytes "\t// TODO: implement with actual persistence\n"
      ∷ bytes "\treturn nil, fmt.Errorf(\"not implemented\")\n"
      ∷ bytes "}\n"
      ∷ bytes "\n"
      ∷ bytes "func (r *"
      ∷ repo
      ∷ bytes ") Delete(ctx context.Context, id string) error {\n"
      ∷ bytes "\t// TODO: implement with actual persistence\n"
      ∷ bytes "\treturn fmt.Errorf(\"not implemented\")\n"
      ∷ bytes "}"
      ∷ [])

unfoldable pub method_impls : Unicode → Bytes → Bool → Bytes
unfolding crud_method_impls
method_impls tables base crud =
    if crud
    then crud_method_impls tables base
    else bytes "\t// TODO: implement biz." ++ (interface_name base ++ bytes " methods.")

unfoldable pub import_lines : Bytes → Bool → List Bytes
import_lines module_path crud =
    (bytes "\"context\"" ∷ (if crud then bytes "\"fmt\"" ∷ [] else []))
    ++ (bytes "\"github.com/go-kratos/kratos/v2/log\""
        ∷ (bytes "\"" ++ (module_path ++ bytes "/internal/biz\""))
        ∷ [])

unfoldable pub data_pieces : Unicode → Bytes → Bytes → Bool → List Bytes
data_pieces tables base module_path crud =
    let interface = interface_name base in
    let repo = repo_name tables base in
    let constructor = data_constructor base in
    (bytes "package data\n"
      ∷ bytes "\n"
      ∷ bytes "import (\n"
      ∷ join (import_lines module_path crud) (bytes "\n")
      ∷ bytes "\n"
      ∷ bytes ")\n"
      ∷ bytes "\n"
      ∷ bytes "type "
      ∷ repo
      ∷ bytes " struct {\n"
      ∷ bytes "\tlog *log.Helper\n"
      ∷ bytes "}\n"
      ∷ bytes "\n"
      ∷ bytes "// "
      ∷ constructor
      ∷ bytes " implements biz."
      ∷ interface
      ∷ bytes ".\n"
      ∷ bytes "func "
      ∷ constructor
      ∷ bytes "(logger log.Logger) biz."
      ∷ interface
      ∷ bytes " {\n"
      ∷ bytes "\treturn &"
      ∷ repo
      ∷ bytes "{\n"
      ∷ bytes "\t\tlog: log.NewHelper(log.With(logger, \"module\", \"data/"
      ∷ base
      ∷ bytes "\")),\n"
      ∷ bytes "\t}\n"
      ∷ bytes "}\n"
      ∷ bytes "\n"
      ∷ method_impls tables base crud
      ∷ bytes "\n"
      ∷ [])

unfoldable pub data_stub : Unicode → Bytes → Bytes → Bool → Bytes
data_stub tables base module_path crud = concat (data_pieces tables base module_path crud)
