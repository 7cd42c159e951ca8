-- ===== src/Scaffold/Templates/Names.antt =====
-- The names in the generated files.
use web_template_go.Prelude.{◌++◌}
use web_template_go.Text.{Bytes, bytes, Unicode}
use web_template_go.Scaffold.Naming.{singularize, lower_camel, upper_camel}

-- The names that the generator gives to the parts of a service, from the base name of its proto.
abbrev pub model_name : Bytes → Bytes
model_name base = upper_camel (singularize base)

abbrev pub interface_name : Bytes → Bytes
interface_name base = model_name base ++ bytes "Repo"

abbrev pub usecase_name : Bytes → Bytes
usecase_name base = model_name base ++ bytes "Usecase"

abbrev pub biz_constructor : Bytes → Bytes
biz_constructor base = bytes "New" ++ usecase_name base

abbrev pub data_constructor : Bytes → Bytes
data_constructor base = bytes "New" ++ interface_name base

abbrev pub repo_name : Unicode → Bytes → Bytes
repo_name tables base = lower_camel tables (singularize base) ++ bytes "Repo"
