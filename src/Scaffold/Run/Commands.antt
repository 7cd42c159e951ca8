-- ===== src/Scaffold/Run/Commands.antt =====
-- The commands of a run that returns.
use web_template_go.Scaffold.Run.Prepare.{prepare-Respects}
use web_template_go.Scaffold.ProtoPath.{service_filename}
use web_template_go.Scaffold.Run.{
  Host, Job, ProtoOptions, run_commands, ProtoResult, format_service, generate, prepare,
  register_both, run_proto,
}
use web_template_go.Prelude.{List, [], ◌∷◌, ◌++◌, Bool, ap, ◌∙◌, ◌≡◌, refl, ◌⊎◌, inl, inr, arith}
use web_template_go.FilePath.Split.{base, join_path}
use web_template_go.Scaffold.Disk.Keeps.{Respects, flow_rules}
use web_template_go.Text.{Bytes, bytes, same}
use web_template_go.Errors.{Result, ok, err}
use web_template_go.Scaffold.Files.Runs.{
  SameRuns, module_path-Respects, rewrite_go_package-Respects, same_runs,
  inject_config_file-Respects, register_service_in_server-Respects, rewrite_proto_as_crud-Respects,
  update_provider_sets-Respects, write_biz_stub-Respects, write_data_stub-Respects,
}
use web_template_go.Scaffold.Disk.{Command, Io, Runner, World, continue, pure, ◌>>=◌, ◌>>◌}
use web_template_go.Scaffold.Run.Logs.{
  Logs, After, Logs-pure, Logs-quiet, Logs-run, Logs-map, Logs-before,
}

-- The commands of a job: the proto file, the service's code, the API's code, and the format of the
-- service's file where there is one.
abbrev add_proto : Job → Command
add_proto job = record {
  dir = join_path (job.root ∷ bytes "api" ∷ []);
  name = bytes "kratos";
  args = bytes "proto" ∷ bytes "add" ∷ job.proto_rel ∷ [];
}

abbrev add_server : Job → Command
add_server job = record {
  dir = job.root;
  name = bytes "kratos";
  args =
      bytes "proto"
      ∷ bytes "server"
      ∷ join_path (bytes "api" ∷ job.proto_rel ∷ [])
      ∷ (bytes "--target-dir=" ++ job.target_dir)
      ∷ [];
}

abbrev make_api : Job → Command
make_api job = record { dir = job.root; name = bytes "make"; args = bytes "api" ∷ [] }

abbrev format_file : Job → Command
format_file job = record {
  dir = job.root;
  name = bytes "gofmt";
  args =
      bytes "-w"
      ∷ join_path (
          job.target_dir
          ∷ base (join_path (job.root ∷ job.target_dir ∷ service_filename job.proto_rel ∷ []))
          ∷ [])
      ∷ [];
}

pub data IsPipeline (job : Job) : List Command → Type 0 where
  plain : IsPipeline job (add_proto job ∷ add_server job ∷ make_api job ∷ [])
  formatted : IsPipeline job (add_proto job ∷ add_server job ∷ make_api job ∷ format_file job ∷ [])

abbrev IsEnd : Job → List Command → Type 0
IsEnd job cs = (cs ≡ []) ⊎ (cs ≡ format_file job ∷ [])

After-IsPipeline :
    (job : Job) (cs : List Command)
    → After (add_proto job) (After (add_server job) (After (make_api job) (IsEnd job))) cs
    → IsPipeline job cs
After-IsPipeline job cs (ds, (es, (fs, inl e, p), q), r) = rw (r, q, p, e) plain
After-IsPipeline job cs (ds, (es, (fs, inr e, p), q), r) = rw (r, q, p, e) formatted

format-Logs :
    {A : Type 0} (runner : Runner) (job : Job) (a : A) (found : Result Bool)
    → Logs (IsEnd job) (
        format_service runner job
          (join_path (job.root ∷ job.target_dir ∷ service_filename job.proto_rel ∷ []))
          found
        >> pure a)
unfolding format_service
format-Logs runner job a (ok is_dir) =
    Logs-map _ (λ cs (ds, p, q). inr (q ∙ ap (λ x. format_file job ∷ x) p))
      (Logs-run {P = λ cs. cs ≡ []} _ _ _ _ _ _ λ _. Logs-pure a refl)
format-Logs runner job a (err e) =
    Logs-quiet _ _ (search (flow_rules, same_runs)) λ _. Logs-pure a (inl refl)

run_commands-Logs :
    (host : Host) (opts : ProtoOptions) (job : Job)
    → Logs
        (After (add_proto job) (After (add_server job) (After (make_api job) (IsEnd job))))
        (run_commands host opts job)
unfolding run_commands
run_commands-Logs host opts job = Logs-run _ _ _ _ _ _ λ _.
    Logs-quiet _ _ (search (flow_rules, same_runs, rewrite_proto_as_crud-Respects)) λ _.
      Logs-quiet _ _ (module_path-Respects _) λ mod_path.
        Logs-quiet _ _ (search (flow_rules, same_runs)) λ go_package.
          Logs-quiet _ _ (rewrite_go_package-Respects _ _ _) λ _. Logs-run _ _ _ _ _ _ λ _.
            Logs-run _ _ _ _ _ _ λ _.
              Logs-quiet _ _ (search (flow_rules, same_runs)) λ found. format-Logs _ job _ found

register_both-Respects :
    (host : Host) (job : Job) (mod_path : Bytes)
    → Respects SameRuns (register_both host job mod_path)
unfolding register_both
register_both-Respects host job mod_path =
    search (flow_rules, same_runs, register_service_in_server-Respects) depth 20

generate-Respects :
    (host : Host) (opts : ProtoOptions) (job : Job) (mod_path service_path : Bytes)
    → Respects SameRuns (generate host opts job mod_path service_path)
unfolding generate
generate-Respects host opts job mod_path service_path =
    search
      (
        flow_rules, same_runs, write_biz_stub-Respects, write_data_stub-Respects,
        update_provider_sets-Respects, register_both-Respects, inject_config_file-Respects,
      )
      depth 40

-- When RunProto returns a result, the commands that it has run are those of its job, in order:
-- `kratos proto add`, `kratos proto server`, `make api`, and perhaps `gofmt` of the service's file.
pub run_proto-IsPipeline :
    (host : Host) (opts : ProtoOptions) (w : World) (result : ProtoResult)
    → (run_proto host opts w).0 ≡ ok result
    → (job : Job) × (cs : List Command) × ((prepare host opts w).0 ≡ ok job)
      × IsPipeline job cs
      × ((run_proto host opts w).1.runs ≡ w.runs ++ cs)
unfolding run_proto ◌>>=◌ continue
run_proto-IsPipeline host opts w result h =
    go (prepare host opts w).0 (prepare host opts w).1 refl ((prepare-Respects host opts).at w) h
  where
    rest : Job → Io ProtoResult
    rest job = run_commands host opts job >>= λ (mod_path, service_path).
        generate host opts job mod_path service_path

    go :
        (r : Result Job) (v : World)
        → (prepare host opts w).0 ≡ r
        → v ≡ w
        → (continue r rest v).0 ≡ ok result
        → (job : Job) × (cs : List Command) × ((prepare host opts w).0 ≡ ok job)
          × IsPipeline job cs
          × ((continue r rest v).1.runs ≡ w.runs ++ cs)
    go (ok job) v e same k =
        let (cs, p, q) =
          (Logs-before (run_commands host opts job) _ (λ a. generate-Respects host opts job _ _)
              (run_commands-Logs host opts job)).at
            v result k in
        (job, cs, e, After-IsPipeline job cs p, q ∙ ap (λ u. u.runs ++ cs) same)
    go (err x) v e same k = absurd (ground arith)
