-- ===== src/Scaffold/Run.antt =====
-- RunProto of internal/scaffold/proto.go.
pub mod Prepare
pub mod Logs
pub mod Commands
pub mod Inside
use web_template_go.Prelude.{
  ℕ, List, [], ◌∷◌, ◌++◌, Bool, true, false, not, Option, none, some, if◌then◌else◌,
}
use web_template_go.Text.{Bytes, bytes, concat, Unicode}
use web_template_go.FilePath.Split.{join_path, base, dir}
use web_template_go.Errors.{Error, message, Result, ok, err, is_not_exist}
use web_template_go.Scaffold.ProtoPath.{
  normalize_proto_path, clean_relative_dir, go_package_for_proto, base_name, service_filename,
  proto_package,
}
use web_template_go.Scaffold.Naming.{upper_camel}
use web_template_go.Scaffold.Templates.Steps.{proto_next_steps, register_step}
use web_template_go.Scaffold.Disk.{Runner, Io, pure, fail, lift, wrap, ◌>>=◌, ◌>>◌, try_stat, run}
use web_template_go.Scaffold.Files.{
  clean_root, ensure_dir, module_path, rewrite_go_package, update_provider_sets,
  rewrite_proto_as_crud, register_service_in_server, inject_config_file, write_biz_stub,
  write_data_stub,
}

-- What the process and the Go library give: the working directory, the Unicode tables, and
-- ExecRunner, which starts a program.
pub record Host : Type 0 where
  pub getwd : Result Bytes
  pub tables : Unicode
  pub exec_runner : Runner

pub record ProtoOptions : Type 0 where
  pub root_dir : Bytes
  pub proto : Bytes
  pub service_target_dir : Bytes
  pub biz_target_dir : Bytes
  pub data_target_dir : Bytes
  pub crud : Bool
  pub skip_auto_register : Bool
  pub runner : Option Runner

pub record ProtoResult : Type 0 where
  pub proto_path : Bytes
  pub service_path : Bytes
  pub biz_path : Bytes
  pub data_path : Bytes
  pub next_steps : List Bytes

abbrev choose_runner : Runner → Option Runner → Runner
choose_runner default none = default
choose_runner default (some runner) = runner

-- What RunProto has found out before it runs the first command.
pub record Job : Type 0 where
  pub root : Bytes
  pub proto_rel : Bytes
  pub target_dir : Bytes
  pub proto_path : Bytes

unfoldable pub refuse_existing : Bytes → Result Bool → Io (Unit {0})
refuse_existing proto_rel (ok is_dir) =
    fail (message (join_path (bytes "api" ∷ proto_rel ∷ []) ++ bytes " already exists"))
refuse_existing proto_rel (err e) = if is_not_exist e then pure tt else fail e

-- RunProto up to the first command.
unfoldable pub prepare : Host → ProtoOptions → Io Job
unfolding refuse_existing
prepare host opts = do
  root ← clean_root host.getwd opts.root_dir
  proto_rel ← lift (normalize_proto_path opts.proto)
  target_dir ← lift (clean_relative_dir opts.service_target_dir (bytes "internal/service"))
  let api_dir = join_path (root ∷ bytes "api" ∷ [])
  ensure_dir api_dir
  ensure_dir (join_path (root ∷ target_dir ∷ []))
  let proto_path = join_path (api_dir ∷ proto_rel ∷ [])
  found ← try_stat proto_path
  refuse_existing proto_rel found
  pure (record {
    root = root;
    proto_rel = proto_rel;
    target_dir = target_dir;
    proto_path = proto_path;
  })

unfoldable pub format_service : Runner → Job → Bytes → Result Bool → Io (Unit {0})
format_service runner job service_path (ok is_dir) = wrap (bytes "gofmt generated service") (
    run runner job.root (bytes "gofmt")
      (bytes "-w" ∷ join_path (job.target_dir ∷ base service_path ∷ []) ∷ []))
format_service runner job service_path (err e) = if is_not_exist e then pure tt else fail e

unfoldable pub register_both : Host → Job → Bytes → Io (Unit {0})
register_both host job mod_path = do
  let svc_name = upper_camel (base_name job.proto_rel)
  let proto_pkg = proto_package job.proto_rel
  let import_path = mod_path ++ (bytes "/api/" ++ dir job.proto_rel)
  wrap (bytes "register gRPC service") (
      register_service_in_server host.tables
        (join_path (job.root ∷ bytes "internal" ∷ bytes "server" ∷ bytes "grpc.go" ∷ [])) svc_name
        import_path proto_pkg true)
  wrap (bytes "register HTTP service") (
      register_service_in_server host.tables
        (join_path (job.root ∷ bytes "internal" ∷ bytes "server" ∷ bytes "http.go" ∷ [])) svc_name
        import_path proto_pkg false)

-- The commands, and the rewriting of the proto file between them; the module's path and the path
-- of the service.
unfoldable pub run_commands : Host → ProtoOptions → Job → Io (Bytes × Bytes)
unfolding format_service
run_commands host opts job = do
  let runner = choose_runner host.exec_runner opts.runner
  wrap (bytes "kratos proto add") (
      run runner (join_path (job.root ∷ bytes "api" ∷ [])) (bytes "kratos")
        (bytes "proto" ∷ bytes "add" ∷ job.proto_rel ∷ []))
  if opts.crud
      then wrap (bytes "rewrite proto as CRUD") (rewrite_proto_as_crud job.proto_path job.proto_rel)
      else pure tt
  mod_path ← module_path job.root
  go_package ← lift (go_package_for_proto mod_path job.proto_rel)
  rewrite_go_package host.tables job.proto_path go_package
  wrap (bytes "kratos proto server") (
      run runner job.root (bytes "kratos") (
        bytes "proto"
        ∷ bytes "server"
        ∷ join_path (bytes "api" ∷ job.proto_rel ∷ [])
        ∷ (bytes "--target-dir=" ++ job.target_dir)
        ∷ []))
  wrap (bytes "make api") (run runner job.root (bytes "make") (bytes "api" ∷ []))
  let service_path = join_path (job.root ∷ job.target_dir ∷ service_filename job.proto_rel ∷ [])
  found ← try_stat service_path
  format_service runner job service_path found
  pure (mod_path, service_path)

-- The files that RunProto writes behind the commands.
unfoldable pub generate : Host → ProtoOptions → Job → Bytes → Bytes → Io ProtoResult
unfolding register_both
generate host opts job mod_path service_path = do
  biz_dir ← lift (clean_relative_dir opts.biz_target_dir (bytes "internal/biz"))
  data_dir ← lift (clean_relative_dir opts.data_target_dir (bytes "internal/data"))
  biz_path ←
      wrap (bytes "generate biz stub")
        (write_biz_stub host.tables job.root job.proto_rel biz_dir opts.crud)
  data_path ←
      wrap (bytes "generate data stub")
        (write_data_stub host.tables job.root job.proto_rel data_dir mod_path opts.crud)
  wrap (bytes "update provider sets")
      (update_provider_sets job.root job.proto_rel job.target_dir biz_dir data_dir)
  if opts.skip_auto_register then pure tt else register_both host job mod_path
  wrap (bytes "inject config entry") (
      inject_config_file (join_path (job.root ∷ bytes "configs" ∷ bytes "config.yaml" ∷ []))
        job.proto_rel)
  let steps = proto_next_steps job.proto_rel job.target_dir biz_dir data_dir
  pure (record {
    proto_path = job.proto_path;
    service_path = service_path;
    biz_path = biz_path;
    data_path = data_path;
    next_steps = if opts.skip_auto_register then register_step job.proto_rel ∷ steps else steps;
  })

unfoldable pub run_proto : Host → ProtoOptions → Io ProtoResult
run_proto host opts = do
  job ← prepare host opts
  (mod_path, service_path) ← run_commands host opts job
  generate host opts job mod_path service_path
