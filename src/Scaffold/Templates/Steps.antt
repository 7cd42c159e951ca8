-- ===== src/Scaffold/Templates/Steps.antt =====
-- protoNextSteps, and the step that RunProto adds if it registers nothing.
use web_template_go.Prelude.{List, [], ◌∷◌, ◌++◌}
use web_template_go.Text.{Bytes, bytes, concat}
use web_template_go.FilePath.Split.{join_path}
use web_template_go.Scaffold.ProtoPath.{base_name, service_filename}
use web_template_go.Scaffold.Naming.{singularize, upper_camel}

unfoldable pub proto_next_steps : Bytes → Bytes → Bytes → Bytes → List Bytes
proto_next_steps proto_rel service_target_dir biz_dir data_dir =
    let base = base_name proto_rel in
    let service_file = join_path (service_target_dir ∷ service_filename proto_rel ∷ []) in
    let singular = singularize base in
    let biz_file = join_path (biz_dir ∷ (base ++ bytes ".go") ∷ []) in
    let data_file = join_path (data_dir ∷ (base ++ bytes ".go") ∷ []) in
    concat (
      bytes "Implement "
      ∷ upper_camel singular
      ∷ bytes "Repo interface methods in "
      ∷ data_file
      ∷ bytes "."
      ∷ [])
    ∷ concat (
        bytes "Implement "
        ∷ upper_camel singular
        ∷ bytes "Usecase methods in "
        ∷ biz_file
        ∷ bytes "."
        ∷ [])
    ∷ concat (bytes "Implement service methods in " ∷ service_file ∷ bytes "." ∷ [])
    ∷ bytes "Run make generate, then make verify."
    ∷ []

unfoldable pub register_step : Bytes → Bytes
register_step proto_rel = concat (
    bytes "Register the generated "
    ∷ upper_camel (base_name proto_rel)
    ∷ bytes " service in internal/server/grpc.go and internal/server/http.go."
    ∷ [])
