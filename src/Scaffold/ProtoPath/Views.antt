-- ===== src/Scaffold/ProtoPath/Views.antt =====
-- What the generator reads off a valid proto path.
use web_template_go.Prelude.{[], ◌∷◌, ◌++◌, ◌≡◌, ◌≢◌, ap, ap₂, ◌∙◌, arith, All-append}
use web_template_go.Text.{
  Bytes, bytes, split, join, Lacks, trim_suffix, trim_suffix-append, split-join,
}
use web_template_go.FilePath.Names.{slash}
use web_template_go.FilePath.Split.{base, ext, dir}
use web_template_go.FilePath.Laws.{dot_suffix-append, All-IsName-Lacks}
use web_template_go.FilePath.File.{split-path, base-path, ext-path, dir-path}
use web_template_go.Scaffold.ProtoPath.{base_name, service_filename, proto_package}
use web_template_go.Scaffold.ProtoPath.Shape.{ProtoPath, dirs, file, render, IsValid}

module _ (p : ProtoPath) (valid : IsValid p) where
  file-Lacks : Lacks slash (file p)
  unfolding bytes
  file-Lacks = All-append (λ c. c ≢ slash) p.stem (bytes ".proto") valid.stem_Lacks (omega arith)

  file-ne-nil : (stem : Bytes) → stem ++ bytes ".proto" ≢ []
  unfolding bytes
  file-ne-nil [] h = cc
  file-ne-nil (c ∷ s) h = cc

  pub split-render : split (render p) slash ≡ dirs p ++ file p ∷ []
  split-render = split-path p.pkg (p.version ∷ p.deeper) (file p) valid.dirs_names file-Lacks

  pub base-render : base (render p) ≡ file p
  base-render =
      base-path p.pkg (p.version ∷ p.deeper) (file p) valid.dirs_names file-Lacks
        (file-ne-nil p.stem)

  pub ext-render : ext (render p) ≡ bytes ".proto"
  ext-render =
      ext-path p.pkg (p.version ∷ p.deeper) (file p) valid.dirs_names file-Lacks
      ∙ unfold bytes in dot_suffix-append p.stem (bytes "proto") (omega arith)

  pub base_name-render : base_name (render p) ≡ p.stem
  unfolding base_name
  base_name-render =
      ap₂ trim_suffix base-render ext-render ∙ trim_suffix-append p.stem (bytes ".proto")

  pub dir-render : dir (render p) ≡ join (dirs p) (slash ∷ [])
  dir-render = dir-path p.pkg (p.version ∷ p.deeper) (file p) valid.dirs_names file-Lacks

  -- The protobuf package of a valid path is its directories, with dots between them.
  pub proto_package-render : proto_package (render p) ≡ join (dirs p) (bytes ".")
  unfolding proto_package
  proto_package-render =
      ap (λ d. join (split d slash) (bytes ".")) dir-render
      ∙ ap (λ l. join l (bytes "."))
          (split-join p.pkg (p.version ∷ p.deeper) slash
            (All-IsName-Lacks (dirs p) valid.dirs_names))

  -- The service of a valid path goes into a file with the name of the proto file and ".go".
  pub service_filename-render : service_filename (render p) ≡ p.stem ++ bytes ".go"
  unfolding service_filename
  service_filename-render = ap (λ s. s ++ bytes ".go") base_name-render
