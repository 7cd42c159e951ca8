-- ===== src/Tests/Generation.antt =====
-- A whole run of RunProto, with programs that write a proto file and do nothing else.
use web_template_go.Scaffold.Run.Inside.{IsPlaced, run_proto-IsPlaced}
use web_template_go.Prelude.{
  List, [], ◌∷◌, true, false, not, none, some, if◌then◌else◌, ◌≡◌, refl, ◌&&◌, ◌||◌,
}
use web_template_go.Errors.{is_not_exist, ok}
use web_template_go.Scaffold.Templates.Steps.{proto_next_steps, register_step}
use web_template_go.Scaffold.Run.{
  Host, Job, ProtoOptions, ProtoResult, format_service, generate, prepare, refuse_existing,
  run_commands, run_proto,
}
use web_template_go.Scaffold.Naming.{
  capitalize, fields, fields_from, flush, singularize, upper_camel, upper_parts,
}
use web_template_go.Scaffold.Run.Commands.{IsPipeline, run_proto-IsPipeline}
use web_template_go.FilePath.Names.{clean, is_abs, show_names, step, step_up, unstack, walk}
use web_template_go.Scaffold.Files.{
  after_stat, apply_edit, clean_root, ensure_dir, ensure_or_create_dir, find_module,
  inject_config_file, inject_into, module_path, not_a_directory, rewrite_go_package, token_too_long,
  try_read, update_provider_file, update_provider_sets, write_biz_stub, write_data_stub,
}
use web_template_go.Scaffold.ProtoPath.{
  base_name, check_proto_path, clean_relative_dir, go_package_for_proto, leads_out,
  normalize_proto_path, service_filename,
}
use web_template_go.FilePath.Split.{base, dir, dot_suffix, ext, join_path, last_name, last_part}
use web_template_go.Scaffold.Disk.{
  Command, Disk, Runner, World, continue, create_in, fail, finish, lift, pure, read_file, read_node,
  run, set_node, stat, stat_node, try_stat, wrap, wrap_result, write_fault, write_file, file,
  directory, ◌>>=◌, absence, is_blocked, is_regular,
}
use web_template_go.Text.{
  Bytes, ascii_space, bytes, concat, contains, has_prefix, has_suffix, index, is_some, join,
  last_index, member, plain_tables, same, skip_space, space_width, space_width_back, split,
  to_upper_one, trim_prefix, trim_right, trim_space, trim_suffix, upper_byte,
}
use web_template_go.Scaffold.GoPackageOption.{
  expand, go_package_option, group_text, has_option, is_word, match_length, name_length,
  option_head, option_tail, reference, replace_all, replace_go_package, run_length,
}
use web_template_go.Scaffold.Edits.{insert_at, provider_insert, update_provider_set}

abbrev proto_path : Bytes
proto_path = bytes "/work/api/shop/v1/orders.proto"

abbrev runner : Runner
runner c disk = (none, set_node proto_path (file (bytes "option go_package = \"x\";\n")) disk)

abbrev host : Host
host = record { getwd = ok (bytes "/work"); tables = plain_tables; exec_runner = runner }

abbrev options : ProtoOptions
options = record {
  root_dir = [];
  proto = bytes "shop/v1/orders.proto";
  service_target_dir = [];
  biz_target_dir = [];
  data_target_dir = [];
  crud = false;
  skip_auto_register = true;
  runner = none;
}

-- Three provider sets and go.mod; no configuration and no proto file; all else are directories.
abbrev disk : Disk
disk path =
    if has_suffix path (bytes "/go.mod")
    then some (file (bytes "module app\n"))
    else if has_suffix path (bytes ".go") && not (has_suffix path (bytes "orders.go"))
    then some (file (bytes "(A)"))
    else if has_suffix path (bytes ".proto")
        || has_suffix path (bytes ".yaml")
        || has_suffix path (bytes ".go")
    then none
    else some directory

abbrev start : World
start = record { disk = disk; runs = [] }

abbrev result : ProtoResult
result = record {
  proto_path = proto_path;
  service_path = bytes "/work/internal/service/orders.go";
  biz_path = bytes "/work/internal/biz/orders.go";
  data_path = bytes "/work/internal/data/orders.go";
  next_steps =
      register_step options.proto
      ∷ proto_next_steps options.proto (bytes "internal/service") (bytes "internal/biz")
          (bytes "internal/data");
}

generated : (run_proto host options start).0 ≡ ok result
unfolding bytes same has_prefix has_suffix trim_prefix trim_suffix index last_index is_some contains
    split join concat ascii_space space_width space_width_back skip_space trim_space member
    trim_right upper_byte to_upper_one step_up step unstack walk is_abs show_names clean last_name
    base last_part dot_suffix ext dir join_path is_not_exist leads_out base_name check_proto_path
    normalize_proto_path go_package_for_proto clean_relative_dir service_filename singularize flush
    fields_from fields capitalize upper_parts upper_camel insert_at provider_insert
    update_provider_set option_head option_tail run_length match_length has_option is_word
    name_length group_text reference expand replace_all go_package_option replace_go_package pure
    fail lift wrap_result wrap continue ◌>>=◌ stat_node stat try_stat read_node read_file set_node
    absence is_blocked is_regular create_in write_fault finish write_file run clean_root
    not_a_directory ensure_dir after_stat ensure_or_create_dir token_too_long find_module
    module_path apply_edit rewrite_go_package update_provider_file update_provider_sets inject_into
    try_read inject_config_file write_biz_stub write_data_stub refuse_existing prepare
    format_service run_commands generate run_proto
generated = refl

run_proto-IsPipeline_example :
    (job : Job) × (cs : List Command) × ((prepare host options start).0 ≡ ok job)
    × IsPipeline job cs
    × ((run_proto host options start).1.runs ≡ cs)
run_proto-IsPipeline_example = run_proto-IsPipeline host options start result generated

run_proto-IsPlaced_example : IsPlaced host options start result
run_proto-IsPlaced_example = run_proto-IsPlaced host options start result generated
