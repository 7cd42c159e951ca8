-- ===== src/Scaffold/Edits/Register.antt =====
-- What registerServiceInServer does to grpc.go and http.go.
use web_template_go.Prelude.{
  [], ◌++◌, Bool, true, ◌≡◌, arith, ◌⊎◌, inl, inr, Bool-cases, Option-cases, append-nil,
}
use web_template_go.Text.{Bytes, bytes, Occurs, contains, contains_iff, Unicode}
use web_template_go.Errors.{ok}
use web_template_go.Scaffold.Edits.{
  keep, write, insert_at, add_import, import_line, register_call, find_server, line_end,
  register_service,
}
use web_template_go.Scaffold.Edits.Insert.{Inserted, insert_at-Inserted, Occurs-Inserted}
use web_template_go.Scaffold.Edits.Import.{add_import-cases}
use web_template_go.Scaffold.Edits.Provider.{write-injective}

-- A server file that has been rewritten: first perhaps the import, then the call behind the line
-- that makes the server.
pub record Registered (str import_line' call new : Bytes) : Type 0 where
  pub imported : Bytes
  pub import_step : (imported ≡ str) ⊎ Inserted str (import_line' ++ bytes "\n") imported
  pub call_step : Inserted imported (bytes "\n\t" ++ call) new

module _ (table : Unicode) (file_path svc_name import_path proto_pkg : Bytes) (is_grpc : Bool) where
  abbrev call : Bytes
  call = register_call table svc_name proto_pkg is_grpc

  pub register_service-Registered :
      (str new : Bytes)
      → register_service table file_path str svc_name import_path proto_pkg is_grpc ≡ ok (write new)
      → Registered str (import_line proto_pkg import_path) call new
  unfolding register_service
  register_service-Registered str new h = elim (Bool-cases (contains str call)) [
    | inl c ↦ ground arith
    | inr c ↦
        let imported = add_import str proto_pkg import_path in
        elim (Option-cases (find_server imported)) [
          | inl n ↦ ground arith
          | inr (idx, e) ↦
              let k : insert_at (line_end imported idx) (bytes "\n\t" ++ call) imported ≡ new =
                write-injective _ _ (rw (c, e) at h) in
              record {
                imported = imported;
                import_step = add_import-cases str proto_pkg import_path;
                call_step =
                    rw (← k)
                      (insert_at-Inserted (line_end imported idx) (bytes "\n\t" ++ call) imported);
              }
        ]
  ]

  -- A rewritten server file holds the registration call, keeps all that it held, but for the import
  -- line and the call, and a second run changes nothing.
  pub register_service_again :
      (str new : Bytes)
      → register_service table file_path str svc_name import_path proto_pkg is_grpc ≡ ok (write new)
      → Occurs new call
        × Registered str (import_line proto_pkg import_path) call new
        × (register_service table file_path new svc_name import_path proto_pkg is_grpc ≡ ok keep)
  register_service_again str new h =
      let r = register_service-Registered str new h in
      let named : Occurs new call =
        Occurs-Inserted call r.call_step (bytes "\n\t", [], rw append-nil) in
      let found : contains new call ≡ true = (contains_iff new call).1 named in
      (named, r, unfold register_service in rw found)
