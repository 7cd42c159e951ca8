-- ===== src/Scaffold/Files/Runs.antt =====
-- No function on files runs a command.
use web_template_go.Prelude.{
  List, [], ◌∷◌, ◌++◌, Bool, true, false, Option, none, some, ◌∙◌, ◌≡◌, refl,
}
use web_template_go.FilePath.Split.{dir}
use web_template_go.Scaffold.Edits.{Edit, keep, write}
use web_template_go.Scaffold.Disk.Keeps.{IsFlow, Respects, Respects-bind, flow_rules}
use web_template_go.Errors.{Error, Result, ok, err}
use web_template_go.Scaffold.Disk.{
  Node, World, finish, mkdir_all, mkdir_names, mkdir_node, mkdir_walk, set_node, write_fault,
  write_file, file, read_only, directory, denied, absence,
}
use web_template_go.Scaffold.Files.{
  after_stat, apply_edit, ensure_or_create_dir, inject_config_file, inject_into, module_path,
  register_service_in_server, rewrite_go_package, rewrite_proto_as_crud, try_read,
  update_provider_file, update_provider_sets, write_biz_stub, write_data_stub,
}
use web_template_go.FilePath.Names.{slash}
use web_template_go.Text.{Bytes, Unicode, split}

abbrev pub SameRuns : World → World → Type 0
SameRuns w w' = w'.runs ≡ w.runs

pub same_runs : IsFlow SameRuns
same_runs = record { stay = λ w. refl; go_on = λ u v w p q. q ∙ p }

finish-runs :
    (e : Option Error) (done w : World) → done.runs ≡ w.runs → (finish e done w).1.runs ≡ w.runs
unfolding finish
finish-runs none done w h = h
finish-runs (some e) done w h = refl

write_file-Respects : (path content : Bytes) → Respects SameRuns (write_file path content)
unfolding write_file
write_file-Respects path content = record {
  at = λ w.
      finish-runs (write_fault (absence w.disk path) path (w.disk path) (w.disk (dir path)))
        (record w { disk = set_node path (file content) w.disk }) w refl;
}

mkdir_node-Respects : (path : Bytes) (n : Option Node) → Respects SameRuns (mkdir_node path n)
unfolding mkdir_node
mkdir_node-Respects path none = record { at = λ w. refl }
mkdir_node-Respects path (some directory) = record { at = λ w. refl }
mkdir_node-Respects path (some denied) = record { at = λ w. refl }
mkdir_node-Respects path (some (file c)) = record { at = λ w. refl }
mkdir_node-Respects path (some (read_only c)) = record { at = λ w. refl }

mkdir_walk-Respects : (above : Bytes) (ns : List Bytes) → Respects SameRuns (mkdir_walk above ns)
unfolding mkdir_walk
mkdir_walk-Respects above [] = record { at = λ w. refl }
mkdir_walk-Respects above (n ∷ ns) = record {
  at = λ w.
      (Respects-bind same_runs (mkdir_node (above ++ (slash ∷ n)) (w.disk (above ++ (slash ∷ n))))
          (λ _. mkdir_walk (above ++ (slash ∷ n)) ns) (mkdir_node-Respects _ _)
          (λ a. mkdir_walk-Respects _ ns)).at
        w;
}

mkdir_names-Respects : (ns : List Bytes) → Respects SameRuns (mkdir_names ns)
unfolding mkdir_names
mkdir_names-Respects [] = record { at = λ w. refl }
mkdir_names-Respects (n ∷ ns) = mkdir_walk-Respects n ns

mkdir_all-Respects : (path : Bytes) → Respects SameRuns (mkdir_all path)
unfolding mkdir_all
mkdir_all-Respects path = mkdir_names-Respects (split path slash)

after_stat-Respects : (path : Bytes) (r : Result Bool) → Respects SameRuns (after_stat path r)
unfolding after_stat
after_stat-Respects path (ok true) = search (flow_rules, same_runs)
after_stat-Respects path (ok false) = search (flow_rules, same_runs)
after_stat-Respects path (err e) = search (flow_rules, same_runs, mkdir_all-Respects)

ensure_or_create_dir-Respects : (path : Bytes) → Respects SameRuns (ensure_or_create_dir path)
unfolding ensure_or_create_dir
ensure_or_create_dir-Respects path = search (flow_rules, same_runs, after_stat-Respects)

pub module_path-Respects : (root : Bytes) → Respects SameRuns (module_path root)
unfolding module_path
module_path-Respects root = search (flow_rules, same_runs)

apply_edit-Respects : (path : Bytes) (e : Edit) → Respects SameRuns (apply_edit path e)
unfolding apply_edit
apply_edit-Respects path keep = search (flow_rules, same_runs)
apply_edit-Respects path (write s) = search (flow_rules, write_file-Respects)

pub rewrite_go_package-Respects :
    (tables : Unicode) (path go_package : Bytes)
    → Respects SameRuns (rewrite_go_package tables path go_package)
unfolding rewrite_go_package
rewrite_go_package-Respects tables path go_package =
    search (flow_rules, same_runs, write_file-Respects)

update_provider_file-Respects :
    (path name : Bytes) → Respects SameRuns (update_provider_file path name)
unfolding update_provider_file
update_provider_file-Respects path name = search (flow_rules, same_runs, apply_edit-Respects)

pub update_provider_sets-Respects :
    (root rel s b d : Bytes) → Respects SameRuns (update_provider_sets root rel s b d)
unfolding update_provider_sets
update_provider_sets-Respects root rel s b d =
    search (flow_rules, same_runs, update_provider_file-Respects) depth 20

pub rewrite_proto_as_crud-Respects :
    (path rel : Bytes) → Respects SameRuns (rewrite_proto_as_crud path rel)
unfolding rewrite_proto_as_crud
rewrite_proto_as_crud-Respects path rel = search (flow_rules, write_file-Respects)

pub register_service_in_server-Respects :
    (tables : Unicode) (file_path svc import_path pkg : Bytes) (is_grpc : Bool)
    → Respects SameRuns (register_service_in_server tables file_path svc import_path pkg is_grpc)
unfolding register_service_in_server
register_service_in_server-Respects tables file_path svc import_path pkg is_grpc =
    search (flow_rules, same_runs, apply_edit-Respects)

try_read-Respects : (path : Bytes) → Respects SameRuns (try_read path)
unfolding try_read
try_read-Respects path = record { at = λ w. refl }

inject_into-Respects :
    (path rel : Bytes) (r : Result Bytes) → Respects SameRuns (inject_into path rel r)
unfolding inject_into
inject_into-Respects path rel (ok content) = search (flow_rules, apply_edit-Respects)
inject_into-Respects path rel (err e) = search (flow_rules, same_runs)

pub inject_config_file-Respects :
    (path rel : Bytes) → Respects SameRuns (inject_config_file path rel)
unfolding inject_config_file
inject_config_file-Respects path rel =
    search (flow_rules, same_runs, try_read-Respects, inject_into-Respects)

pub write_biz_stub-Respects :
    (tables : Unicode) (root rel biz_dir : Bytes) (crud : Bool)
    → Respects SameRuns (write_biz_stub tables root rel biz_dir crud)
unfolding write_biz_stub
write_biz_stub-Respects tables root rel biz_dir crud =
    search (flow_rules, same_runs, ensure_or_create_dir-Respects, write_file-Respects)

pub write_data_stub-Respects :
    (tables : Unicode) (root rel data_dir mod_path : Bytes) (crud : Bool)
    → Respects SameRuns (write_data_stub tables root rel data_dir mod_path crud)
unfolding write_data_stub
write_data_stub-Respects tables root rel data_dir mod_path crud =
    search (flow_rules, same_runs, ensure_or_create_dir-Respects, write_file-Respects)
