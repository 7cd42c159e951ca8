-- ===== src/Tests/Texts.antt =====
-- Tests of the edits of texts: names, provider sets, imports, registrations, configurations and the
-- go_package option.
use web_template_go.Errors.{ok}
use web_template_go.Prelude.{[], ◌∷◌, ◌++◌, true, map, ◌≡◌, refl, arith}
use web_template_go.Scaffold.Edits.Provider.{
  update_provider_set_again, update_provider_set_empty, provider_text,
}
use web_template_go.Scaffold.Naming.Plural.{singularize_plurals}
use web_template_go.Scaffold.Edits.{
  add_import, find_close, find_server, import_line, insert_at, line_end, provider_insert, quoted,
  register_call, register_service, update_provider_set, keep, write,
}
use web_template_go.Scaffold.Edits.Register.{Registered, register_service_again}
use web_template_go.Scaffold.Naming.{
  capitalize, fields, lower_camel, singularize, upper_camel, fields_from, flush, lower_part,
  lower_parts, upper_parts,
}
use web_template_go.Text.{
  Bytes, Occurs, ascii_space, bytes, contains, has_prefix, has_suffix, index, is_ascii, is_some,
  join, last_index, lower_byte, plain_tables, same, skip_space, space_width, space_width_back,
  split, to_lower, to_upper_one, trim_right, trim_space, upper_byte,
}

plurals :
    map singularize (
      bytes "categories"
      ∷ bytes "addresses"
      ∷ bytes "boxes"
      ∷ bytes "orders"
      ∷ bytes "class"
      ∷ bytes "pies"
      ∷ [])
    ≡ bytes "category"
      ∷ bytes "address"
      ∷ bytes "box"
      ∷ bytes "order"
      ∷ bytes "class"
      ∷ bytes "py"
      ∷ []
unfolding singularize bytes has_suffix same
plurals = refl

singularize_plurals_example :
    (singularize (bytes "stories") ≡ bytes "story")
    × (singularize (bytes "storses") ≡ bytes "stors")
    × (singularize (bytes "storxes") ≡ bytes "storx")
    × (singularize (bytes "storzes") ≡ bytes "storz")
    × (singularize (bytes "storks") ≡ bytes "stork")
unfolding bytes
singularize_plurals_example =
    singularize_plurals (bytes "stor") b'k' (ground arith) (omega arith) (omega arith)

camels :
    (upper_camel (bytes "user_order-v2") ≡ bytes "UserOrderV2")
    × (lower_camel plain_tables (bytes "user_order-v2") ≡ bytes "userOrderV2")
unfolding upper_camel lower_camel bytes fields fields_from flush upper_parts lower_parts lower_part
    capitalize to_upper_one upper_byte to_lower is_ascii lower_byte same
camels = (refl, refl)

abbrev provider_set : Bytes
provider_set = bytes "var ProviderSet = wire.NewSet(\n\tNewGreeterRepo,\n)\n"

abbrev provider_set_after : Bytes
provider_set_after = bytes "var ProviderSet = wire.NewSet(\n\tNewGreeterRepo,\n\tNewOrderRepo,\n)\n"

provider_added :
    update_provider_set (bytes "data.go") provider_set (bytes "NewOrderRepo")
    ≡ ok (write provider_set_after)
unfolding update_provider_set provider_insert insert_at bytes contains index is_some has_prefix
    last_index trim_right has_suffix same
provider_added = refl

update_provider_set_again_example :
    let x = bytes "var ProviderSet = wire.NewSet(\n\tNewData,\n" in
    let new = x ++ (provider_text x (bytes "NewOrderRepo") ++ (b')' ∷ bytes "\n")) in
    (update_provider_set (bytes "data.go") (x ++ (b')' ∷ bytes "\n")) (bytes "NewOrderRepo")
      ≡ ok (write new))
    × (update_provider_set (bytes "data.go") new (bytes "NewOrderRepo") ≡ ok keep)
update_provider_set_again_example =
    update_provider_set_again (bytes "data.go")
      (bytes "var ProviderSet = wire.NewSet(\n\tNewData,\n") (bytes "\n") (bytes "NewOrderRepo")
      (unfold bytes contains index is_some has_prefix in refl) (unfold bytes in omega arith)

update_provider_set_empty_example :
    update_provider_set (bytes "biz.go") (bytes "wire.NewSet()\n") (bytes "NewOrderUsecase")
    ≡ ok (write (bytes "wire.NewSet(, NewOrderUsecase)\n"))
unfolding bytes contains index is_some has_prefix
update_provider_set_empty_example =
    update_provider_set_empty (bytes "biz.go") (bytes "wire.NewSet") (bytes "\n")
      (bytes "NewOrderUsecase") refl (omega arith)

abbrev server_file : Bytes
server_file = bytes "import (\n\t\"context\"\n)\n\nfunc New() {\n\tsrv := grpc.NewServer()\n}\n"

abbrev server_file_after : Bytes
server_file_after =
    bytes
      "import (\n\t\"context\"\n\tv1 \"app/api/v1\"\n)\n\nfunc New() {\n\tsrv := grpc.NewServer()\n\tv1.RegisterOrderServer(srv, order)\n}\n"

registered :
    register_service plain_tables
      (bytes "grpc.go")
      server_file
      (bytes "Order")
      (bytes "app/api/v1")
      (bytes "v1")
      true
    ≡ ok (write server_file_after)
unfolding register_service register_call find_server line_end add_import find_close import_line
    quoted insert_at bytes contains index is_some has_prefix trim_space split join singularize
    lower_camel fields fields_from flush lower_parts lower_part capitalize to_upper_one upper_byte
    to_lower is_ascii lower_byte has_suffix same ascii_space skip_space space_width space_width_back
registered = refl

register_service_again_example :
    Occurs server_file_after (register_call plain_tables (bytes "Order") (bytes "v1") true)
    × Registered server_file
        (import_line (bytes "v1") (bytes "app/api/v1"))
        (register_call plain_tables (bytes "Order") (bytes "v1") true)
        server_file_after
    × (register_service plain_tables
          (bytes "grpc.go")
          server_file_after
          (bytes "Order")
          (bytes "app/api/v1")
          (bytes "v1")
          true
        ≡ ok keep)
register_service_again_example =
    register_service_again plain_tables (bytes "grpc.go") (bytes "Order") (bytes "app/api/v1")
      (bytes "v1") true server_file server_file_after registered
