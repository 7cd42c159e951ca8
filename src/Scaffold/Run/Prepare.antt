-- ===== src/Scaffold/Run/Prepare.antt =====
-- Nothing is done before the checks are passed.
use web_template_go.Scaffold.ProtoPath.{normalize_proto_path, clean_relative_dir}
use web_template_go.FilePath.Split.{join_path}
use web_template_go.Prelude.{◌≡◌, refl, sym, ◌∙◌, Bool, some, ap, ◌∷◌, [], subst}
use web_template_go.Text.{Bytes, bytes}
use web_template_go.Errors.{Error, Result, ok, err, is_not_exist, Reason}
use web_template_go.Scaffold.Disk.{
  World, Io, fail, lift, ◌>>=◌, continue, try_stat, Node, file, read_only, directory, denied,
  stat_node, absence,
}
use web_template_go.Scaffold.Disk.Keeps.{
  Respects, IsFlow, flow_rules, Fails, Fails-bind, Fails-bind_ok, bind-err,
}
use web_template_go.Scaffold.Files.{clean_root, ensure_dir}
use web_template_go.Scaffold.Run.{
  Host, ProtoOptions, prepare, refuse_existing, run_proto, normalize_proto_path, join_path,
}

abbrev Unchanged : World → World → Type 0
Unchanged w w' = w' ≡ w

same_flow : IsFlow Unchanged
same_flow = record { stay = λ w. refl; go_on = λ u v w p q. q ∙ p }

clean_root-Respects :
    (getwd : Result Bytes) (root : Bytes) → Respects Unchanged (clean_root getwd root)
unfolding clean_root
clean_root-Respects getwd root = search (flow_rules, same_flow)

ensure_dir-Respects : (path : Bytes) → Respects Unchanged (ensure_dir path)
unfolding ensure_dir
ensure_dir-Respects path = search (flow_rules, same_flow)

refuse_existing-Respects :
    (proto_rel : Bytes) (r : Result Bool) → Respects Unchanged (refuse_existing proto_rel r)
unfolding refuse_existing
refuse_existing-Respects proto_rel (ok b) = search (flow_rules, same_flow)
refuse_existing-Respects proto_rel (err e) = search (flow_rules, same_flow)

pub prepare-Respects : (host : Host) (opts : ProtoOptions) → Respects Unchanged (prepare host opts)
unfolding prepare
prepare-Respects host opts =
    search
      (flow_rules, same_flow, clean_root-Respects, ensure_dir-Respects, refuse_existing-Respects)
      depth 30

refuse_node :
    (proto_rel path : Bytes) (w : World) (why : Reason) (n : Node)
    → (e : Error) × ((refuse_existing proto_rel (stat_node why path (some n)) w).0 ≡ err e)
unfolding refuse_existing stat_node fail is_not_exist
refuse_node proto_rel path w why (file c) = (_, refl)
refuse_node proto_rel path w why (read_only c) = (_, refl)
refuse_node proto_rel path w why directory = (_, refl)
refuse_node proto_rel path w why denied = (_, refl)

refuse_existing-Fails :
    (proto_rel path : Bytes) (w : World) (n : Node) {A : Type 0} (rest : Io A)
    → w.disk path ≡ some n
    → Fails (try_stat path >>= λ found. refuse_existing proto_rel found >>= λ _. rest) w
unfolding ◌>>=◌ try_stat
refuse_existing-Fails proto_rel path w n rest e =
    let (x, p) = refuse_node proto_rel path w (absence w.disk path) n in
    let q : (refuse_existing proto_rel (stat_node (absence w.disk path) path (w.disk path)) w).0
        ≡ err x =
      ap (λ m. (refuse_existing proto_rel (stat_node (absence w.disk path) path m) w).0) e ∙ p in
    record {
      error = x;
      fails =
          unfold continue in
          ap
            (λ r.
              (continue r (λ _. rest)
                (refuse_existing proto_rel (stat_node (absence w.disk path) path (w.disk path))
                  w).1).0)
            q;
    }

module _ {A B : Type 0} (m : Io A) (f : A → Io B) (w : World) (still : Respects Unchanged m) where
  -- The two rules for a first action that changes nothing.
  Fails-after : (a : A) → (m w).0 ≡ ok a → Fails (f a) w → Fails (m >>= f) w
  Fails-after a e h = Fails-bind_ok m f w a e (subst (Fails (f a)) (sym (still.at w)) h)

  Fails-any : ((a : A) → Fails (f a) w) → Fails (m >>= f) w
  Fails-any h = Fails-bind m f w (λ a. subst (Fails (f a)) (sym (still.at w)) (h a))

-- Once the job's checks have come to the proto's path, a file there makes them fail.
prepare-Fails :
    (host : Host) (opts : ProtoOptions) (w : World) (root rel : Bytes) (n : Node)
    → (clean_root host.getwd opts.root_dir w).0 ≡ ok root
    → normalize_proto_path opts.proto ≡ ok rel
    → w.disk (join_path (join_path (root ∷ bytes "api" ∷ []) ∷ rel ∷ [])) ≡ some n
    → Fails (prepare host opts) w
unfolding prepare
prepare-Fails host opts w root rel n r p e =
    Fails-after (clean_root host.getwd opts.root_dir) _ w
      (clean_root-Respects host.getwd opts.root_dir) root r
      (Fails-after (lift (normalize_proto_path opts.proto)) _ w (search (flow_rules, same_flow)) rel
        (unfold lift in p)
        (Fails-any (lift (clean_relative_dir opts.service_target_dir (bytes "internal/service"))) _
          w (search (flow_rules, same_flow))
          λ target.
            Fails-any (ensure_dir (join_path (root ∷ bytes "api" ∷ []))) _ w (ensure_dir-Respects _)
              λ _.
                Fails-any (ensure_dir (join_path (root ∷ target ∷ []))) _ w (ensure_dir-Respects _)
                  λ _.
                    refuse_existing-Fails rel
                      (join_path (join_path (root ∷ bytes "api" ∷ []) ∷ rel ∷ [])) w n _ e))

-- If the checks before the first command fail, RunProto returns their error, and has run no command
-- and changed no file.
pub run_proto_refused :
    (host : Host) (opts : ProtoOptions) (w : World) (e : Error)
    → (prepare host opts w).0 ≡ err e
    → run_proto host opts w ≡ (err e, w)
unfolding run_proto
run_proto_refused host opts w e h =
    bind-err (prepare host opts) _ w e h ∙ ap (λ v. (err e, v)) ((prepare-Respects host opts).at w)

-- RunProto never writes over a proto file: if the root can be resolved, the proto path is accepted,
-- and anything stands where the proto file would be, it returns an error, and has run no command and
-- changed no file.
pub run_proto_keeps_existing :
    (host : Host) (opts : ProtoOptions) (w : World) (root rel : Bytes) (n : Node)
    → (clean_root host.getwd opts.root_dir w).0 ≡ ok root
    → normalize_proto_path opts.proto ≡ ok rel
    → w.disk (join_path (join_path (root ∷ bytes "api" ∷ []) ∷ rel ∷ [])) ≡ some n
    → (e : Error) × (run_proto host opts w ≡ (err e, w))
run_proto_keeps_existing host opts w root rel n r p e =
    let f = prepare-Fails host opts w root rel n r p e in
    (f.error, run_proto_refused host opts w f.error f.fails)
