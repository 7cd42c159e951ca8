-- ===== src/Scaffold/Templates/Crud.antt =====
-- The proto file that rewriteProtoAsCRUD writes.
use web_template_go.Prelude.{List, [], ◌∷◌}
use web_template_go.Text.{Bytes, bytes, concat}
use web_template_go.Scaffold.Naming.{singularize, upper_camel}
use web_template_go.Scaffold.ProtoPath.{base_name, proto_package}

unfoldable pub crud_pieces : Bytes → List Bytes
crud_pieces proto_rel =
    let base = base_name proto_rel in
    let pkg = proto_package proto_rel in
    let svc_name = upper_camel base in
    let singular = upper_camel (singularize base) in
    let plural = svc_name in
    (bytes "syntax = \"proto3\";\n"
      ∷ bytes "\n"
      ∷ bytes "package "
      ∷ pkg
      ∷ bytes ";\n"
      ∷ bytes "\n"
      ∷ bytes "option go_package = \"placeholder\";\n"
      ∷ bytes "\n"
      ∷ bytes "import \"google/protobuf/timestamp.proto\";\n"
      ∷ bytes "import \"google/protobuf/empty.proto\";\n"
      ∷ bytes "import \"validate/validate.proto\";\n"
      ∷ bytes "\n"
      ∷ bytes "service "
      ∷ svc_name
      ∷ bytes " {\n"
      ∷ bytes "  rpc Create"
      ∷ singular
      ∷ bytes "(Create"
      ∷ singular
      ∷ bytes "Request) returns ("
      ∷ singular
      ∷ bytes ");\n"
      ∷ bytes "  rpc Get"
      ∷ singular
      ∷ bytes "(Get"
      ∷ singular
      ∷ bytes "Request) returns ("
      ∷ singular
      ∷ bytes ");\n"
      ∷ bytes "  rpc List"
      ∷ plural
      ∷ bytes "(List"
      ∷ plural
      ∷ bytes "Request) returns (List"
      ∷ plural
      ∷ bytes "Response);\n"
      ∷ bytes "  rpc Update"
      ∷ singular
      ∷ bytes "(Update"
      ∷ singular
      ∷ bytes "Request) returns ("
      ∷ singular
      ∷ bytes ");\n"
      ∷ bytes "  rpc Delete"
      ∷ singular
      ∷ bytes "(Delete"
      ∷ singular
      ∷ bytes "Request) returns (google.protobuf.Empty);\n"
      ∷ bytes "}\n"
      ∷ bytes "\n"
      ∷ bytes "message "
      ∷ singular
      ∷ bytes " {\n"
      ∷ bytes "  string id = 1;\n"
      ∷ bytes "  // TODO: add domain fields\n"
      ∷ bytes "  google.protobuf.Timestamp created_at = 20;\n"
      ∷ bytes "  google.protobuf.Timestamp updated_at = 21;\n"
      ∷ bytes "}\n"
      ∷ bytes "\n"
      ∷ bytes "message Create"
      ∷ singular
      ∷ bytes "Request {\n"
      ∷ bytes "  // TODO: add creation fields\n"
      ∷ bytes "}\n"
      ∷ bytes "\n"
      ∷ bytes "message Get"
      ∷ singular
      ∷ bytes "Request {\n"
      ∷ bytes "  string id = 1 [(validate.rules).string.min_len = 1];\n"
      ∷ bytes "}\n"
      ∷ bytes "\n"
      ∷ bytes "message List"
      ∷ plural
      ∷ bytes "Request {\n"
      ∷ bytes "  int32 page = 1;\n"
      ∷ bytes "  int32 page_size = 2;\n"
      ∷ bytes "}\n"
      ∷ bytes "\n"
      ∷ bytes "message List"
      ∷ plural
      ∷ bytes "Response {\n"
      ∷ bytes "  repeated "
      ∷ singular
      ∷ bytes " items = 1;\n"
      ∷ bytes "  int32 total = 2;\n"
      ∷ bytes "}\n"
      ∷ bytes "\n"
      ∷ bytes "message Update"
      ∷ singular
      ∷ bytes "Request {\n"
      ∷ bytes "  string id = 1 [(validate.rules).string.min_len = 1];\n"
      ∷ bytes "  // TODO: add updatable fields\n"
      ∷ bytes "}\n"
      ∷ bytes "\n"
      ∷ bytes "message Delete"
      ∷ singular
      ∷ bytes "Request {\n"
      ∷ bytes "  string id = 1 [(validate.rules).string.min_len = 1];\n"
      ∷ bytes "}\n"
      ∷ [])

unfoldable pub crud_proto : Bytes → Bytes
crud_proto proto_rel = concat (crud_pieces proto_rel)
