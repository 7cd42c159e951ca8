-- ===== src/Tests/Options.antt =====
-- Tests of injectConfigEntry, ReplaceGoPackage and the generated files.
use web_template_go.Errors.{ok}
use web_template_go.Prelude.{◌∷◌, ◌++◌, true, false, ◌≡◌, refl, arith, []}
use web_template_go.Scaffold.GoPackageOption.Match.{has_option-line}
use web_template_go.Scaffold.Templates.Crud.{crud_proto}
use web_template_go.Scaffold.GoPackageOption.Replace.{replace_go_package_once}
use web_template_go.Scaffold.ProtoPath.{base_name}
use web_template_go.Scaffold.Edits.Config.{inject_config_entry_placed}
use web_template_go.Scaffold.Templates.GoPackage.{crud_proto-replace_go_package}
use web_template_go.Scaffold.GoPackageOption.{
  go_package_option, has_option, match_length, option_head, option_tail, replace_go_package,
  run_length,
}
use web_template_go.FilePath.Split.{base, dot_suffix, ext, last_name, last_part}
use web_template_go.Scaffold.Edits.{config_block, config_entry, inject_config_entry, keep, write}
use web_template_go.Text.{
  Bytes, bytes, contains, has_prefix, has_suffix, index, is_some, plain_tables, same, split,
  trim_suffix, last_index,
}

abbrev config_text : Bytes
config_text = bytes "data:\n  redis:\n    addr: x\nremote_grpc:\n  greeter:\n"

abbrev config_after : Bytes
config_after =
    bytes
      "data:\n  redis:\n    addr: x\nremote_grpc:\n    order:\n      enabled: false\n      target: \"order:9000\"\n      timeout: 500ms\n      circuitbreaker_enabled: false\n  greeter:\n"

inject_config_entry_placed_example :
    (inject_config_entry config_text (bytes "shop/v1/order.proto") ≡ write config_after)
    × (inject_config_entry config_after (bytes "shop/v1/order.proto") ≡ keep)
unfolding bytes index has_prefix contains is_some config_entry config_block split base ext
    dot_suffix last_name last_part base_name has_suffix trim_suffix same last_index
inject_config_entry_placed_example =
    inject_config_entry_placed (bytes "data:\n  redis:\n    addr: x\n") [] (bytes "  greeter:\n")
      (bytes "shop/v1/order.proto") refl (omega arith) refl

-- TestReplaceGoPackage
replace_go_package_once_example :
    replace_go_package plain_tables
      (bytes "syntax = \"proto3\";\n\npackage demo.v1;\n\n"
        ++ (go_package_option (bytes "github.com/example/app/demo/v1;v1") ++ bytes "\n"))
      (bytes "github.com/example/app/api/demo/v1;v1")
    ≡ ok (
        bytes "syntax = \"proto3\";\n\npackage demo.v1;\n\n"
        ++ (go_package_option (bytes "github.com/example/app/api/demo/v1;v1") ++ bytes "\n"))
unfolding bytes
replace_go_package_once_example =
    replace_go_package_once plain_tables (bytes "syntax = \"proto3\";\n\npackage demo.v1;\n\n")
      (bytes "\n") (bytes "github.com/example/app/api/demo/v1;v1") b'g'
      (bytes "ithub.com/example/app/demo/v1;v1") (omega arith) (omega arith) refl
      (unfold match_length run_length option_head option_tail has_prefix go_package_option in refl)
      (unfold has_option match_length run_length option_head option_tail has_prefix in refl)

crud_proto-replace_go_package_example :
    (next : Bytes) × (replace_go_package plain_tables
        (crud_proto (bytes "shop/v1/order.proto"))
        (bytes "app/api/shop/v1;v1")
      ≡ ok next)
crud_proto-replace_go_package_example =
    crud_proto-replace_go_package plain_tables (bytes "shop/v1/order.proto")
      (bytes "app/api/shop/v1;v1")

has_option-line_example :
    has_option false (bytes "package demo.v1;" ++ (b'\n' ∷ bytes "option go_package = \"x\";"))
    ≡ true
unfolding bytes match_length run_length option_head option_tail has_prefix
has_option-line_example =
    has_option-line (bytes "package demo.v1;") (bytes "option go_package = \"x\";") false
      (omega arith)
