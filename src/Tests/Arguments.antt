-- ===== src/Tests/Arguments.antt =====
-- Command lines of the generator.
use web_template_go.CommandLine.Spelling.{
  Setting, root_setting, crud_setting, target_dir_setting, spell_all, set_all,
  parse_flags-spell_all, upper_false_word,
}
use web_template_go.Errors.{ok}
use web_template_go.Prelude.{List, [], ◌∷◌, ◌++◌, true, false, ◌↔◌, none, some, ◌≡◌, refl}
use web_template_go.Scaffold.Run.{Host}
use web_template_go.CommandLine.Exit.{HasRun, WorldOf, main_proto_exit, main-world}
use web_template_go.CommandLine.{
  Terminal, after_command, main, print, print_flag_error, run_command, run_parsed,
  run_proto_command, flag_usage, failure, bad_flags,
}
use web_template_go.CommandLine.Parse.{
  after_dash, argument, bool_name, cut_value, default_flags, find_flag, named_argument, parse_flags,
  parse_rest, string_name, unknown_flag, accepted, help_requested,
}
use web_template_go.Text.{bytes, plain_tables, same}

abbrev settings : List Setting
settings =
    root_setting true true (bytes "-x=y")
    ∷ crud_setting false none
    ∷ target_dir_setting false false (bytes "--crud")
    ∷ crud_setting true (some upper_false_word)
    ∷ []

-- --root=-x=y -crud -target-dir --crud --crud=false order/v1/order.proto
parse_flags-spell_all_example :
    parse_flags (spell_all settings ++ bytes "order/v1/order.proto" ∷ [])
    ≡ accepted (set_all settings default_flags) (bytes "order/v1/order.proto" ∷ [])
parse_flags-spell_all_example =
    parse_flags-spell_all settings (bytes "order/v1/order.proto") []
      (unfold argument after_dash bytes in refl)

abbrev console : Terminal
console = record { world = record { disk = λ path. none; runs = [] }; prints = [] }

abbrev host : Host
host = record {
  getwd = ok (bytes "/repo");
  tables = plain_tables;
  exec_runner = λ c disk. (none, disk);
}

main_proto_exit_example :
    let r = main host (bytes "scaffold" ∷ bytes "proto" ∷ bytes "-h" ∷ []) console in
    (r.0 ≡ 0) ↔ HasRun host (parse_flags (bytes "-h" ∷ [])) console r.1.world
main_proto_exit_example = main_proto_exit host (bytes "scaffold") (bytes "-h" ∷ []) console

-- `scaffold proto -h` prints the list of flags, and fails.
asks_for_help :
    main host (bytes "scaffold" ∷ bytes "proto" ∷ bytes "-h" ∷ []) console
    ≡ (1, record console { prints = flag_usage ∷ failure (bad_flags help_requested) ∷ [] })
unfolding main run_command run_proto_command run_parsed after_command print_flag_error print
    parse_flags parse_rest argument after_dash named_argument cut_value find_flag string_name
    bool_name unknown_flag same bytes
asks_for_help = refl

main-world_example :
    let args = bytes "scaffold" ∷ bytes "proto" ∷ bytes "a.proto" ∷ [] in
    WorldOf host args console (main host args console).1.world
main-world_example =
    main-world host (bytes "scaffold" ∷ bytes "proto" ∷ bytes "a.proto" ∷ []) console
