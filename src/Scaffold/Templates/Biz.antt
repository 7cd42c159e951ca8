-- ===== src/Scaffold/Templates/Biz.antt =====
-- The text of the file that writeBizStub writes.
use web_template_go.Prelude.{List, [], ◌∷◌, Bool, if◌then◌else◌}
use web_template_go.Text.{Bytes, bytes, concat, Unicode}
use web_template_go.Scaffold.Naming.{singularize, lower_camel}
use web_template_go.Text.{to_upper}
use web_template_go.Scaffold.Templates.Names.{
  model_name, interface_name, usecase_name, biz_constructor,
}

crud_repo_methods : Bytes → Bytes
crud_repo_methods base =
    let model = model_name base in
    concat (
      bytes "\tCreate(context.Context, *"
      ∷ model
      ∷ bytes ") (*"
      ∷ model
      ∷ bytes ", error)\n"
      ∷ bytes "\tGet(context.Context, string) (*"
      ∷ model
      ∷ bytes ", error)\n"
      ∷ bytes "\tList(context.Context, int32, int32) ([]*"
      ∷ model
      ∷ bytes ", int32, error)\n"
      ∷ bytes "\tUpdate(context.Context, *"
      ∷ model
      ∷ bytes ") (*"
      ∷ model
      ∷ bytes ", error)\n"
      ∷ bytes "\tDelete(context.Context, string) error"
      ∷ [])

unfoldable pub repo_methods : Bytes → Bool → Bytes
unfolding crud_repo_methods
repo_methods base crud =
    if crud
    then crud_repo_methods base
    else concat (
        bytes "\t// TODO: define domain methods, for example:\n"
        ∷ bytes "\t// Save(context.Context, *"
        ∷ model_name base
        ∷ bytes ") (*"
        ∷ model_name base
        ∷ bytes ", error)"
        ∷ [])

crud_usecase_methods : Unicode → Bytes → Bytes
crud_usecase_methods tables base =
    let singular = singularize base in
    let model = model_name base in
    let usecase = usecase_name base in
    let variable = lower_camel tables singular in
    concat (
      bytes "// Create"
      ∷ model
      ∷ bytes " creates a new "
      ∷ singular
      ∷ bytes ".\n"
      ∷ bytes "func (uc *"
      ∷ usecase
      ∷ bytes ") Create"
      ∷ model
      ∷ bytes "(ctx context.Context, "
      ∷ variable
      ∷ bytes " *"
      ∷ model
      ∷ bytes ") (*"
      ∷ model
      ∷ bytes ", error) {\n"
      ∷ bytes "\t// TODO: add validation and business rules\n"
      ∷ bytes "\treturn uc.repo.Create(ctx, "
      ∷ variable
      ∷ bytes ")\n"
      ∷ bytes "}\n"
      ∷ bytes "\n"
      ∷ bytes "// Get"
      ∷ model
      ∷ bytes " retrieves a "
      ∷ singular
      ∷ bytes " by ID.\n"
      ∷ bytes "func (uc *"
      ∷ usecase
      ∷ bytes ") Get"
      ∷ model
      ∷ bytes "(ctx context.Context, id string) (*"
      ∷ model
      ∷ bytes ", error) {\n"
      ∷ bytes "\treturn uc.repo.Get(ctx, id)\n"
      ∷ bytes "}\n"
      ∷ bytes "\n"
      ∷ bytes "// List"
      ∷ model
      ∷ bytes " returns a paginated list of "
      ∷ singular
      ∷ bytes "s.\n"
      ∷ bytes "func (uc *"
      ∷ usecase
      ∷ bytes ") List"
      ∷ model
      ∷ bytes "(ctx context.Context, page, pageSize int32) ([]*"
      ∷ model
      ∷ bytes ", int32, error) {\n"
      ∷ bytes "\treturn uc.repo.List(ctx, page, pageSize)\n"
      ∷ bytes "}\n"
      ∷ bytes "\n"
      ∷ bytes "// Update"
      ∷ model
      ∷ bytes " updates an existing "
      ∷ singular
      ∷ bytes ".\n"
      ∷ bytes "func (uc *"
      ∷ usecase
      ∷ bytes ") Update"
      ∷ model
      ∷ bytes "(ctx context.Context, "
      ∷ variable
      ∷ bytes " *"
      ∷ model
      ∷ bytes ") (*"
      ∷ model
      ∷ bytes ", error) {\n"
      ∷ bytes "\t// TODO: add validation and business rules\n"
      ∷ bytes "\treturn uc.repo.Update(ctx, "
      ∷ variable
      ∷ bytes ")\n"
      ∷ bytes "}\n"
      ∷ bytes "\n"
      ∷ bytes "// Delete"
      ∷ model
      ∷ bytes " deletes a "
      ∷ singular
      ∷ bytes " by ID.\n"
      ∷ bytes "func (uc *"
      ∷ usecase
      ∷ bytes ") Delete"
      ∷ model
      ∷ bytes "(ctx context.Context, id string) error {\n"
      ∷ bytes "\treturn uc.repo.Delete(ctx, id)\n"
      ∷ bytes "}"
      ∷ [])

unfoldable pub usecase_methods : Unicode → Bytes → Bool → Bytes
unfolding crud_usecase_methods
usecase_methods tables base crud =
    if crud then crud_usecase_methods tables base else bytes "\t// TODO: implement business methods"

unfoldable pub biz_pieces : Unicode → Bytes → Bool → List Bytes
biz_pieces tables base crud =
    let singular = singularize base in
    let model = model_name base in
    let interface = interface_name base in
    let usecase = usecase_name base in
    let constructor = biz_constructor base in
    (bytes "package biz\n"
      ∷ bytes "\n"
      ∷ bytes "import (\n"
      ∷ bytes "\t\"context\"\n"
      ∷ bytes "\n"
      ∷ bytes "\t\"github.com/go-kratos/kratos/v2/errors\"\n"
      ∷ bytes "\t\"github.com/go-kratos/kratos/v2/log\"\n"
      ∷ bytes ")\n"
      ∷ bytes "\n"
      ∷ bytes "var (\n"
      ∷ bytes "\tErr"
      ∷ model
      ∷ bytes "NotFound = errors.NotFound(\""
      ∷ to_upper tables base
      ∷ bytes "_NOT_FOUND\", \""
      ∷ singular
      ∷ bytes " not found\")\n"
      ∷ bytes ")\n"
      ∷ bytes "\n"
      ∷ bytes "// "
      ∷ model
      ∷ bytes " is the domain model for "
      ∷ singular
      ∷ bytes ".\n"
      ∷ bytes "type "
      ∷ model
      ∷ bytes " struct {\n"
      ∷ bytes "\tID string\n"
      ∷ bytes "\t// TODO: add domain fields\n"
      ∷ bytes "}\n"
      ∷ bytes "\n"
      ∷ bytes "// "
      ∷ interface
      ∷ bytes " defines the outbound port for "
      ∷ singular
      ∷ bytes " persistence.\n"
      ∷ bytes "type "
      ∷ interface
      ∷ bytes " interface {\n"
      ∷ repo_methods base crud
      ∷ bytes "\n"
      ∷ bytes "}\n"
      ∷ bytes "\n"
      ∷ bytes "// "
      ∷ usecase
      ∷ bytes " implements "
      ∷ singular
      ∷ bytes " business rules.\n"
      ∷ bytes "type "
      ∷ usecase
      ∷ bytes " struct {\n"
      ∷ bytes "\trepo "
      ∷ interface
      ∷ bytes "\n"
      ∷ bytes "\tlog  *log.Helper\n"
      ∷ bytes "}\n"
      ∷ bytes "\n"
      ∷ bytes "// "
      ∷ constructor
      ∷ bytes " creates a new "
      ∷ usecase
      ∷ bytes ".\n"
      ∷ bytes "func "
      ∷ constructor
      ∷ bytes "(repo "
      ∷ interface
      ∷ bytes ", logger log.Logger) *"
      ∷ usecase
      ∷ bytes " {\n"
      ∷ bytes "\treturn &"
      ∷ usecase
      ∷ bytes "{\n"
      ∷ bytes "\t\trepo: repo,\n"
      ∷ bytes "\t\tlog:  log.NewHelper(log.With(logger, \"module\", \"biz/"
      ∷ base
      ∷ bytes "\")),\n"
      ∷ bytes "\t}\n"
      ∷ bytes "}\n"
      ∷ bytes "\n"
      ∷ usecase_methods tables base crud
      ∷ bytes "\n"
      ∷ [])

unfoldable pub biz_stub : Unicode → Bytes → Bool → Bytes
biz_stub tables base crud = concat (biz_pieces tables base crud)
