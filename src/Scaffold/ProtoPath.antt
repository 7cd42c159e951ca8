-- ===== src/Scaffold/ProtoPath.antt =====
-- NormalizeProtoPath, GoPackageForProto, cleanRelativeDir, serviceFilename and protoPackage of
-- internal/scaffold/proto.go. The proofs are in the modules below.
pub mod Shape
pub mod Sound
pub mod Views
pub mod Complete
pub mod TargetDir
pub mod GoPackage
use web_template_go.Prelude.{
  ℕ, [], ◌∷◌, ◌++◌, Bool, true, false, ◌||◌, not, if◌then◌else◌, ltb, length,
}
use web_template_go.Text.{
  Bytes, bytes, same, has_prefix, contains, trim_prefix, trim_suffix, split, join, trim_space,
}
use web_template_go.FilePath.Names.{slash, clean, is_abs}
use web_template_go.FilePath.Split.{base, ext, dir}
use web_template_go.Errors.{Error, message, Result, ok, err, ◌>>=◌, ◌>>◌, reject_if}

abbrev pub path_required : Error
path_required = message (bytes "proto path is required")

abbrev pub path_absolute : Error
path_absolute = message (bytes "proto path must be relative")

abbrev pub path_escapes : Error
path_escapes = message (bytes "proto path must stay under api")

abbrev pub path_no_proto : Error
path_no_proto = message (bytes "proto path must end with .proto")

abbrev pub path_no_name : Error
path_no_name = message (bytes "proto path must include a proto file name")

abbrev pub path_shallow : Error
path_shallow =
    message (bytes "proto path should include package and version, for example demo/v1/demo.proto")

-- The tests by which a cleaned path leads out of its directory.
unfoldable pub leads_out : Bytes → Bool
leads_out v = has_prefix v (bytes "../") || same v (bytes "..") || contains v (bytes "/../")

-- strings.TrimSuffix(filepath.Base(protoRel), filepath.Ext(protoRel))
unfoldable pub base_name : Bytes → Bytes
base_name proto_rel = trim_suffix (base proto_rel) (ext proto_rel)

-- What NormalizeProtoPath tests once the prefixes are gone.
unfoldable pub check_proto_path : Bytes → Result Bytes
check_proto_path v = do
  reject_if (leads_out v) path_escapes
  reject_if (same (base v) (bytes ".") || not (same (ext v) (bytes ".proto"))) path_no_proto
  reject_if (same (base_name v) []) path_no_name
  reject_if (ltb (length (split v slash)) 3) path_shallow
  ok v

unfoldable pub normalize_proto_path : Bytes → Result Bytes
normalize_proto_path path = do
  let v = trim_space path
  reject_if (same v []) path_required
  let w = clean v
  reject_if (is_abs w) path_absolute
  check_proto_path (trim_prefix (trim_prefix w (bytes "./")) (bytes "api/"))

unfoldable pub go_package_for_proto : Bytes → Bytes → Result Bytes
go_package_for_proto module_path proto_rel = do
  let m = trim_space module_path
  reject_if (same m []) (message (bytes "module path is empty"))
  let d = dir proto_rel
  reject_if (same d (bytes ".") || same d []) (message (bytes "proto path has no directory"))
  ok (m ++ (bytes "/api/" ++ (d ++ (bytes ";" ++ base d))))

unfoldable pub clean_relative_dir : Bytes → Bytes → Result Bytes
clean_relative_dir input fallback = do
  let v = trim_space input
  let w = clean (if same v [] then fallback else v)
  reject_if (is_abs w || leads_out w) (message (bytes "target directory must be relative"))
  ok w

unfoldable pub service_filename : Bytes → Bytes
unfolding base_name
service_filename proto_rel = base_name proto_rel ++ bytes ".go"

unfoldable pub proto_package : Bytes → Bytes
proto_package proto_rel = join (split (dir proto_rel) slash) (bytes ".")
