-- ===== src/Scaffold/Run/Inside.antt =====
-- Where a run that returns puts its proto file and its service.
use web_template_go.Scaffold.ProtoPath.Views.{service_filename-render}
use web_template_go.Scaffold.ProtoPath.Sound.{normalize_proto_path-IsValid}
use web_template_go.Scaffold.ProtoPath.Shape.{IsValid, ProtoPath, render}
use web_template_go.FilePath.Names.{IsName, is_abs, slash}
use web_template_go.Scaffold.Files.{clean_root}
use web_template_go.Scaffold.ProtoPath.TargetDir.{clean_relative_dir-IsName}
use web_template_go.Prelude.{
  [], ◌∷◌, ◌++◌, if◌then◌else◌, Bool-cases, ap, ◌∙◌, ◌≡◌, refl, ◌⊎◌, inl, inr, arith, subst, All,
}
use web_template_go.Scaffold.ProtoPath.{clean_relative_dir, normalize_proto_path, service_filename}
use web_template_go.Errors.{Result, ok, err, ok-injective}
use web_template_go.FilePath.Split.{join_path}
use web_template_go.Scaffold.Disk.{Io, World, continue, lift, pure, ◌>>=◌}
use web_template_go.Text.{Bytes, bytes, same, split, trim_space}
use web_template_go.Scaffold.Run.{
  Host, Job, ProtoOptions, ProtoResult, generate, prepare, run_commands, run_proto,
}

-- Whenever `m` returns a value, `Q` holds of it.
record Returns {A : Type 0} (Q : A → Type 0) (m : Io A) : Type 0 where
  at : (w : World) (a : A) → (m w).0 ≡ ok a → Q a

module _ {A : Type 0} {Q : A → Type 0} where
  Returns-pure : (a : A) → Q a → Returns Q (pure a)
  unfolding pure
  Returns-pure a q = record { at = λ w b e. subst Q (ok-injective e) q }

  module _ {B : Type 0} (m : Io B) (f : B → Io A) where
    Returns-continue :
        (r : Result B) (w : World) (a : A)
        → ((b : B) → r ≡ ok b → Returns Q (f b))
        → (continue r f w).0 ≡ ok a
        → Q a
    unfolding continue
    Returns-continue (ok b) w a h e = (h b refl).at w a e
    Returns-continue (err x) w a h e = absurd (ground arith)

    -- What follows holds for whatever the first action may return.
    Returns-after : ((b : B) (w : World) → (m w).0 ≡ ok b → Returns Q (f b)) → Returns Q (m >>= f)
    unfolding ◌>>=◌
    Returns-after h = record { at = λ w a e. Returns-continue (m w).0 (m w).1 a (λ b k. h b w k) e }

    Returns-bind : ((b : B) → Returns Q (f b)) → Returns Q (m >>= f)
    Returns-bind h = Returns-after λ b w k. h b

-- What a job has been checked for.
pub record IsChecked (host : Host) (opts : ProtoOptions) (job : Job) : Type 0 where
  pub rooted : (w : World) × ((clean_root host.getwd opts.root_dir w).0 ≡ ok job.root)
  pub proto : normalize_proto_path opts.proto ≡ ok job.proto_rel
  pub target :
      clean_relative_dir opts.service_target_dir (bytes "internal/service") ≡ ok job.target_dir
  pub path :
      job.proto_path ≡ join_path (join_path (job.root ∷ bytes "api" ∷ []) ∷ job.proto_rel ∷ [])

prepare-Returns :
    (host : Host) (opts : ProtoOptions) → Returns (IsChecked host opts) (prepare host opts)
unfolding prepare lift
prepare-Returns host opts = Returns-after _ _ λ root w0 e0. Returns-after _ _ λ rel w1 e1.
    Returns-after _ _ λ target w2 e2. Returns-bind _ _ λ _. Returns-bind _ _ λ _.
      Returns-bind _ _ λ found.
        Returns-bind _ _
          λ _. Returns-pure _ (record { rooted = (w0, e0); proto = e1; target = e2; path = refl })

-- The root does not depend on the disk.
clean_root-same :
    (getwd : Result Bytes) (root : Bytes) (w v : World)
    → (clean_root getwd root w).0 ≡ (clean_root getwd root v).0
unfolding clean_root pure lift ◌>>=◌ continue
clean_root-same (ok cwd) root w v =
    elim (Bool-cases (is_abs (if same (trim_space root) [] then bytes "." else root))) [
      | inl e ↦ rw e refl
      | inr e ↦ rw e refl
    ]
clean_root-same (err x) root w v =
    elim (Bool-cases (is_abs (if same (trim_space root) [] then bytes "." else root))) [
      | inl e ↦ rw e refl
      | inr e ↦ rw e refl
    ]

abbrev service_path_of : Job → Bytes
service_path_of job = join_path (job.root ∷ job.target_dir ∷ service_filename job.proto_rel ∷ [])

run_commands-Returns :
    (host : Host) (opts : ProtoOptions) (job : Job)
    → Returns (λ (r : Bytes × Bytes). r.1 ≡ service_path_of job) (run_commands host opts job)
unfolding run_commands
run_commands-Returns host opts job = Returns-bind _ _ λ _. Returns-bind _ _ λ _.
    Returns-bind _ _ λ mod_path. Returns-bind _ _ λ go_package. Returns-bind _ _ λ _.
      Returns-bind _ _ λ _.
        Returns-bind _ _ λ _. Returns-bind _ _ λ found. Returns-bind _ _ λ _. Returns-pure _ refl

abbrev IsResult : Job → Bytes → ProtoResult → Type 0
IsResult job service_path result =
    (result.proto_path ≡ job.proto_path) × (result.service_path ≡ service_path)

generate-Returns :
    (host : Host) (opts : ProtoOptions) (job : Job) (mod_path service_path : Bytes)
    → Returns (IsResult job service_path) (generate host opts job mod_path service_path)
unfolding generate
generate-Returns host opts job mod_path service_path = Returns-bind _ _ λ biz_dir.
    Returns-bind _ _ λ data_dir. Returns-bind _ _ λ biz_path. Returns-bind _ _ λ data_path.
      Returns-bind _ _ λ _. Returns-bind _ _ λ _. Returns-bind _ _ λ _. Returns-pure _ (refl, refl)

-- A result whose files stand below the root: the proto file below api, at a valid path, and the
-- service in the directory that cleanRelativeDir makes of ServiceTargetDir, which is the root or is
-- reached from it by steps down.
pub record IsPlaced (host : Host) (opts : ProtoOptions) (w : World) (result : ProtoResult)
    : Type 0 where
  pub root : Bytes
  pub rooted : (clean_root host.getwd opts.root_dir w).0 ≡ ok root
  pub proto : ProtoPath
  pub valid : IsValid proto
  pub accepted : normalize_proto_path opts.proto ≡ ok (render proto)
  pub target : Bytes
  pub accepted_target :
      clean_relative_dir opts.service_target_dir (bytes "internal/service") ≡ ok target
  pub inside : (target ≡ bytes ".") ⊎ All IsName (split target slash)
  pub proto_path :
      result.proto_path ≡ join_path (join_path (root ∷ bytes "api" ∷ []) ∷ render proto ∷ [])
  pub service_path :
      result.service_path ≡ join_path (root ∷ target ∷ (proto.stem ++ bytes ".go") ∷ [])

IsChecked-IsPlaced :
    (host : Host) (opts : ProtoOptions) (w : World) (job : Job) (result : ProtoResult)
    → IsChecked host opts job
    → IsResult job (service_path_of job) result
    → IsPlaced host opts w result
IsChecked-IsPlaced host opts w job result c (at_proto, at_service) =
    let (p, valid, e) = normalize_proto_path-IsValid opts.proto job.proto_rel c.proto in
    let (v, rooted) = c.rooted in
    record {
      root = job.root;
      rooted = clean_root-same host.getwd opts.root_dir w v ∙ rooted;
      proto = p;
      valid = valid;
      accepted = c.proto ∙ ap ok e;
      target = job.target_dir;
      accepted_target = c.target;
      inside = clean_relative_dir-IsName _ _ job.target_dir c.target;
      proto_path =
          at_proto
          ∙ c.path
          ∙ ap (λ rel. join_path (join_path (job.root ∷ bytes "api" ∷ []) ∷ rel ∷ [])) e;
      service_path =
          at_service
          ∙ ap (λ f. join_path (job.root ∷ job.target_dir ∷ f ∷ []))
              (ap service_filename e ∙ service_filename-render p valid);
    }

run_proto-Returns :
    (host : Host) (opts : ProtoOptions) (w : World)
    → Returns (IsPlaced host opts w) (run_proto host opts)
unfolding run_proto
run_proto-Returns host opts w = Returns-after _ _ λ job v e. Returns-after _ _ λ r u f. record {
  at = λ x result g.
      let (at_proto, at_service) = (generate-Returns host opts job r.0 r.1).at x result g in
      IsChecked-IsPlaced host opts w job result ((prepare-Returns host opts).at v job e)
        (at_proto, at_service ∙ (run_commands-Returns host opts job).at u r f);
}

-- When RunProto returns a result, its proto file is below the root's api directory, at the path that
-- NormalizeProtoPath has accepted, which is valid, and its service is the file of the same name in
-- the directory that cleanRelativeDir makes of ServiceTargetDir, which does not lead out of the root.
pub run_proto-IsPlaced :
    (host : Host) (opts : ProtoOptions) (w : World) (result : ProtoResult)
    → (run_proto host opts w).0 ≡ ok result
    → IsPlaced host opts w result
run_proto-IsPlaced host opts w result h = (run_proto-Returns host opts w).at w result h
