-- ===== src/Tests/Paths.antt =====
-- Tests of NormalizeProtoPath, cleanRelativeDir, GoPackageForProto and the names taken from a path.
use web_template_go.Errors.{ok, err}
use web_template_go.Scaffold.ProtoPath.Complete.{normalize_proto_path-render}
use web_template_go.Prelude.{All, ℕ, [], ◌∷◌, map, ◌≡◌, ◌≢◌, refl, ◌⊎◌, arith}
use web_template_go.Scaffold.ProtoPath.Views.{proto_package-render}
use web_template_go.Scaffold.ProtoPath.TargetDir.{clean_relative_dir-IsName}
use web_template_go.Scaffold.ProtoPath.Sound.{normalize_proto_path-IsValid}
use web_template_go.FilePath.Split.{base, dot_suffix, ext, last_name, last_part}
use web_template_go.Scaffold.ProtoPath.Shape.{IsValid, ProtoPath, render}
use web_template_go.Text.{
  Bytes, Lacks, ascii_space, bytes, contains, has_prefix, has_suffix, index, is_some, join,
  last_index, same, skip_space, space_width, space_width_back, split, trim_prefix, trim_space,
  trim_suffix,
}
use web_template_go.Scaffold.ProtoPath.{
  base_name, check_proto_path, clean_relative_dir, leads_out, normalize_proto_path, path_absolute,
  path_escapes, path_no_name, path_no_proto, path_required, path_shallow, proto_package,
}
use web_template_go.FilePath.Names.{
  IsName, clean, is_abs, show_names, slash, step, step_up, unstack, walk,
}

abbrev greeter_path : ProtoPath
greeter_path = record {
  pkg = bytes "demo";
  version = bytes "v1";
  deeper = [];
  stem = bytes "greeter";
}

name_lem : (c : ℕ) (n : Bytes) → c ≢ b'.' → Lacks slash (c ∷ n) → IsName (c ∷ n)
name_lem c n first l = record {
  no_slash = l;
  ne_nil = ground arith;
  ne_dot = ground arith;
  ne_dot_dot = ground arith;
}

greeter_path-IsValid : IsValid greeter_path
unfolding bytes
greeter_path-IsValid = record {
  dirs_names = (
    name_lem b'd' (bytes "emo") (omega arith) (omega arith),
    (name_lem b'v' (bytes "1") (omega arith) (omega arith), tt),
  );
  stem_Lacks = omega arith;
  stem_ne_nil = ground arith;
}

-- The inputs of TestNormalizeProtoPath, and what it wants of them.
normalize_inputs :
    map normalize_proto_path (
      bytes "demo/v1/demo.proto"
      ∷ bytes "api/demo/v1/demo.proto"
      ∷ bytes "./api/demo/v1/demo.proto"
      ∷ bytes " "
      ∷ bytes "../demo/v1/demo.proto"
      ∷ bytes "/tmp/demo.proto"
      ∷ bytes "demo/v1/demo.txt"
      ∷ bytes "demo.proto"
      ∷ bytes "demo/v1/.proto"
      ∷ [])
    ≡ ok (bytes "demo/v1/demo.proto")
      ∷ ok (bytes "demo/v1/demo.proto")
      ∷ ok (bytes "demo/v1/demo.proto")
      ∷ err path_required
      ∷ err path_escapes
      ∷ err path_absolute
      ∷ err path_no_proto
      ∷ err path_shallow
      ∷ err path_no_name
      ∷ []
unfolding normalize_proto_path bytes same trim_space is_abs has_prefix clean show_names walk split
    join check_proto_path leads_out trim_prefix contains index base ext dot_suffix step step_up
    unstack last_name last_part base_name has_suffix trim_suffix is_some last_index ascii_space
    skip_space space_width space_width_back
normalize_inputs = refl

normalize_proto_path-render_example :
    normalize_proto_path (render greeter_path) ≡ ok (render greeter_path)
unfolding bytes
normalize_proto_path-render_example =
    normalize_proto_path-render greeter_path b'd' (bytes "emo") greeter_path-IsValid refl refl
      (ground arith)

below_api :
    normalize_proto_path (bytes "./api/demo/v1/demo.proto") ≡ ok (bytes "demo/v1/demo.proto")
unfolding normalize_proto_path bytes same trim_space is_abs has_prefix clean show_names walk split
    join check_proto_path leads_out trim_prefix contains index base ext dot_suffix step step_up
    unstack last_name last_part base_name has_suffix trim_suffix is_some last_index ascii_space
    skip_space space_width space_width_back
below_api = refl

normalize_proto_path-IsValid_example :
    (p : ProtoPath) × IsValid p × (bytes "demo/v1/demo.proto" ≡ render p)
normalize_proto_path-IsValid_example =
    normalize_proto_path-IsValid (bytes "./api/demo/v1/demo.proto") (bytes "demo/v1/demo.proto")
      below_api

proto_package-render_example : proto_package (bytes "demo/v1/greeter.proto") ≡ bytes "demo.v1"
unfolding bytes join
proto_package-render_example = proto_package-render greeter_path greeter_path-IsValid

cleaned :
    clean_relative_dir (bytes " internal/./biz/ ") (bytes "internal/service")
    ≡ ok (bytes "internal/biz")
unfolding clean_relative_dir bytes same trim_space is_abs has_prefix clean show_names walk split
    join leads_out contains index step step_up unstack is_some ascii_space skip_space space_width
    space_width_back
cleaned = refl

clean_relative_dir-IsName_example :
    (bytes "internal/biz" ≡ bytes ".") ⊎ All IsName (split (bytes "internal/biz") slash)
clean_relative_dir-IsName_example =
    clean_relative_dir-IsName (bytes " internal/./biz/ ") (bytes "internal/service")
      (bytes "internal/biz") cleaned
