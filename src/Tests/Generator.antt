-- ===== src/Tests/Generator.antt =====
-- Tests of RunProto's refusals, in the directory /work.
use web_template_go.Errors.{Error, ok, err}
use web_template_go.Scaffold.Run.Prepare.{run_proto_keeps_existing, run_proto_refused}
use web_template_go.FilePath.Names.{clean, is_abs, show_names, step, step_up, unstack, walk}
use web_template_go.Prelude.{
  if◌then◌else◌, if◌then◌else◌, [], ◌∷◌, true, false, none, some, ◌≡◌, refl,
}
use web_template_go.Scaffold.Disk.{Runner, World, continue, lift, pure, ◌>>=◌, file, directory}
use web_template_go.Scaffold.Run.{Host, ProtoOptions, prepare, run_proto}
use web_template_go.Scaffold.Disk.{file}
use web_template_go.Scaffold.ProtoPath.{
  base_name, check_proto_path, leads_out, normalize_proto_path, path_required,
}
use web_template_go.Text.{
  Bytes, ascii_space, bytes, contains, has_prefix, has_suffix, index, is_some, join, last_index,
  plain_tables, same, skip_space, space_width, space_width_back, split, trim_prefix, trim_space,
  trim_suffix,
}
use web_template_go.Scaffold.Files.{clean_root}
use web_template_go.FilePath.Split.{base, dot_suffix, ext, join_path, last_name, last_part}

abbrev idle_runner : Runner
idle_runner c disk = (none, disk)

abbrev host : Host
host = record { getwd = ok (bytes "/work"); tables = plain_tables; exec_runner = idle_runner }

abbrev options : Bytes → ProtoOptions
options proto = record {
  root_dir = [];
  proto = proto;
  service_target_dir = [];
  biz_target_dir = [];
  data_target_dir = [];
  crud = true;
  skip_auto_register = false;
  runner = none;
}

-- Every path is a directory, but for one proto file.
abbrev taken : Bytes
taken = bytes "/work/api/demo/v1/greeter.proto"

abbrev start : World
start = record {
  disk = λ path. if same path taken then some (file []) else some directory;
  runs = [];
}

refused : (prepare host (options (bytes " ")) start).0 ≡ err path_required
unfolding prepare ◌>>=◌ continue lift pure clean_root normalize_proto_path bytes same trim_space
    is_abs has_prefix ascii_space skip_space space_width space_width_back
refused = refl

run_proto_refused_example : run_proto host (options (bytes " ")) start ≡ (err path_required, start)
run_proto_refused_example = run_proto_refused host (options (bytes " ")) start path_required refused

root_found :
    (clean_root host.getwd (options (bytes "demo/v1/greeter.proto")).root_dir start).0
    ≡ ok (bytes "/work")
unfolding ◌>>=◌ continue lift pure clean_root bytes same trim_space is_abs has_prefix ascii_space
    skip_space space_width space_width_back join_path clean show_names walk split join step step_up
    unstack
root_found = refl

path_accepted :
    normalize_proto_path (bytes "demo/v1/greeter.proto") ≡ ok (bytes "demo/v1/greeter.proto")
unfolding normalize_proto_path bytes same trim_space is_abs has_prefix clean show_names walk split
    join check_proto_path leads_out trim_prefix contains index base ext dot_suffix step step_up
    unstack last_name last_part base_name has_suffix trim_suffix is_some last_index ascii_space
    skip_space space_width space_width_back
path_accepted = refl

path_taken :
    start.disk (
      join_path (join_path (bytes "/work" ∷ bytes "api" ∷ []) ∷ bytes "demo/v1/greeter.proto" ∷ []))
    ≡ some (file [])
unfolding bytes same is_abs has_prefix join_path clean show_names walk split join step step_up
    unstack
path_taken = refl

run_proto_keeps_existing_example :
    (e : Error) × (run_proto host (options (bytes "demo/v1/greeter.proto")) start ≡ (err e, start))
run_proto_keeps_existing_example =
    run_proto_keeps_existing host (options (bytes "demo/v1/greeter.proto")) start (bytes "/work")
      (bytes "demo/v1/greeter.proto") (file []) root_found path_accepted path_taken
