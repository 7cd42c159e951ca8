-- ===== src/Scaffold/Files.antt =====
-- The functions of internal/scaffold/proto.go that read and write files.
pub mod Runs
use web_template_go.Scaffold.Naming.{upper_camel, singularize}
use web_template_go.Prelude.{List, [], ◌∷◌, ◌++◌, Bool, true, false, if◌then◌else◌, leb, length}
use web_template_go.Text.{Bytes, bytes, same, has_prefix, trim_prefix, trim_space, split, Unicode}
use web_template_go.FilePath.Names.{is_abs, clean}
use web_template_go.FilePath.Split.{join_path}
use web_template_go.Errors.{Error, message, Result, ok, err, is_not_exist}
use web_template_go.Scaffold.ProtoPath.{base_name}
use web_template_go.Scaffold.Edits.{
  Edit, keep, write, update_provider_set, register_service, inject_config_entry,
}
use web_template_go.Scaffold.GoPackageOption.{replace_go_package}
use web_template_go.Scaffold.Templates.Crud.{crud_proto}
use web_template_go.Scaffold.Templates.Biz.{biz_stub}
use web_template_go.Scaffold.Templates.Data.{data_stub}
use web_template_go.Scaffold.Disk.{
  Io, pure, fail, lift, wrap, ◌>>=◌, ◌>>◌, stat, try_stat, read_file, write_file, mkdir_all,
}

-- The working directory is that of the process: os.Getwd is a parameter.
unfoldable pub clean_root : Result Bytes → Bytes → Io Bytes
clean_root getwd root =
    let r = if same (trim_space root) [] then bytes "." else root in
    if is_abs r then pure (clean r) else do cwd ← lift getwd; pure (join_path (cwd ∷ r ∷ []))

unfoldable pub not_a_directory : Bytes → Error
not_a_directory path = message (path ++ bytes " is not a directory")

unfoldable pub ensure_dir : Bytes → Io (Unit {0})
unfolding not_a_directory
ensure_dir path = do is_dir ← stat path; if is_dir then pure tt else fail (not_a_directory path)

unfoldable pub after_stat : Bytes → Result Bool → Io (Unit {0})
unfolding not_a_directory
after_stat path (ok true) = pure tt
after_stat path (ok false) = fail (not_a_directory path)
after_stat path (err e) = if is_not_exist e then mkdir_all path else fail e

unfoldable pub ensure_or_create_dir : Bytes → Io (Unit {0})
unfolding after_stat
ensure_or_create_dir path = do info ← try_stat path; after_stat path info

-- A line that bufio.Scanner cannot hold: bufio.MaxScanTokenSize bytes and more.
unfoldable pub token_too_long : Error
token_too_long = message (bytes "bufio.Scanner: token too long")

unfoldable pub find_module : List Bytes → Result Bytes
unfolding token_too_long
find_module [] = err (message (bytes "go.mod has no module line"))
find_module (text ∷ lines) =
    let line = trim_space text in
    let rest = find_module lines in
    if leb 65536 (length text)
    then err token_too_long
    else if has_prefix line (bytes "module ")
    then ok (trim_space (trim_prefix line (bytes "module ")))
    else rest

unfoldable pub module_path : Bytes → Io Bytes
unfolding find_module
module_path root = do
  content ← read_file (join_path (root ∷ bytes "go.mod" ∷ []))
  lift (find_module (split content b'\n'))

-- What a function that edits a file does with its Edit.
unfoldable pub apply_edit : Bytes → Edit → Io (Unit {0})
apply_edit path keep = pure tt
apply_edit path (write next) = write_file path next

unfoldable pub rewrite_go_package : Unicode → Bytes → Bytes → Io (Unit {0})
rewrite_go_package tables path go_package = do
  content ← read_file path
  next ← lift (replace_go_package tables content go_package)
  if same content next then pure tt else write_file path next

unfoldable pub update_provider_file : Bytes → Bytes → Io (Unit {0})
unfolding apply_edit
update_provider_file path constructor_name = do
  content ← read_file path
  edit ← lift (update_provider_set path content constructor_name)
  apply_edit path edit

-- The names of the constructors that updateProviderSets computes, of the service, the usecase and the
-- repository.
abbrev pub provided_service : Bytes → Bytes
provided_service name = bytes "New" ++ (upper_camel name ++ bytes "Service")

abbrev pub provided_usecase : Bytes → Bytes
provided_usecase name = bytes "New" ++ (upper_camel (singularize name) ++ bytes "Usecase")

abbrev pub provided_repo : Bytes → Bytes
provided_repo name = bytes "New" ++ (upper_camel (singularize name) ++ bytes "Repo")

unfoldable pub update_provider_sets : Bytes → Bytes → Bytes → Bytes → Bytes → Io (Unit {0})
update_provider_sets root proto_rel service_dir biz_dir data_dir = do
  let name = base_name proto_rel
  wrap (bytes "update service provider set") (
      update_provider_file (join_path (root ∷ service_dir ∷ bytes "service.go" ∷ []))
        (provided_service name))
  wrap (bytes "update biz provider set") (
      update_provider_file (join_path (root ∷ biz_dir ∷ bytes "biz.go" ∷ []))
        (provided_usecase name))
  wrap (bytes "update data provider set") (
      update_provider_file (join_path (root ∷ data_dir ∷ bytes "data.go" ∷ []))
        (provided_repo name))

unfoldable pub rewrite_proto_as_crud : Bytes → Bytes → Io (Unit {0})
rewrite_proto_as_crud proto_path proto_rel = write_file proto_path (crud_proto proto_rel)

unfoldable pub register_service_in_server :
    Unicode → Bytes → Bytes → Bytes → Bytes → Bool → Io (Unit {0})
unfolding apply_edit
register_service_in_server tables file_path svc_name import_path proto_pkg is_grpc = do
  content ← read_file file_path
  edit ← lift (register_service tables file_path content svc_name import_path proto_pkg is_grpc)
  apply_edit file_path edit

unfoldable pub inject_into : Bytes → Bytes → Result Bytes → Io (Unit {0})
unfolding apply_edit
inject_into config_path proto_rel (ok content) =
    apply_edit config_path (inject_config_entry content proto_rel)
inject_into config_path proto_rel (err e) = if is_not_exist e then pure tt else fail e

-- os.ReadFile(path), with its error as a value
unfoldable pub try_read : Bytes → Io (Result Bytes)
unfolding read_file
try_read path w = let (r, w') = read_file path w in (ok r, w')

unfoldable pub inject_config_file : Bytes → Bytes → Io (Unit {0})
unfolding inject_into
inject_config_file config_path proto_rel = do
  content ← try_read config_path
  inject_into config_path proto_rel content

unfoldable pub write_biz_stub : Unicode → Bytes → Bytes → Bytes → Bool → Io Bytes
write_biz_stub tables root proto_rel biz_dir crud = do
  let name = base_name proto_rel
  ensure_or_create_dir (join_path (root ∷ biz_dir ∷ []))
  let path = join_path (root ∷ biz_dir ∷ (name ++ bytes ".go") ∷ [])
  write_file path (biz_stub tables name crud)
  pure path

unfoldable pub write_data_stub : Unicode → Bytes → Bytes → Bytes → Bytes → Bool → Io Bytes
write_data_stub tables root proto_rel data_dir mod_path crud = do
  let name = base_name proto_rel
  ensure_or_create_dir (join_path (root ∷ data_dir ∷ []))
  let path = join_path (root ∷ data_dir ∷ (name ++ bytes ".go") ∷ [])
  write_file path (data_stub tables name mod_path crud)
  pure path
