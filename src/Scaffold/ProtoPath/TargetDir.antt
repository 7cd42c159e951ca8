-- ===== src/Scaffold/ProtoPath/TargetDir.antt =====
-- cleanRelativeDir keeps target directories below the root.
use web_template_go.Prelude.{
  [], false, ◌≡◌, refl, sym, subst, ◌∙◌, ◌⊎◌, inl, inr, arith, if◌then◌else◌, All,
}
use web_template_go.Text.{Bytes, bytes, same, split, trim_space}
use web_template_go.FilePath.Names.{slash, IsName, is_abs, clean}
use web_template_go.FilePath.Clean.{IsNormal, clean-IsNormal}
use web_template_go.Errors.{ok}
use web_template_go.Scaffold.ProtoPath.{leads_out, clean_relative_dir}
use web_template_go.Scaffold.ProtoPath.Sound.{names-of-normal, is_abs-clean}

-- The text that cleanRelativeDir cleans.
abbrev chosen : Bytes → Bytes → Bytes
chosen input fallback = if same (trim_space input) [] then fallback else trim_space input

clean_relative_dir-tests :
    (input fallback w : Bytes)
    → clean_relative_dir input fallback ≡ ok w
    → (w ≡ clean (chosen input fallback))
      × (is_abs (clean (chosen input fallback)) ≡ false)
      × (leads_out w ≡ false)
unfolding clean_relative_dir
clean_relative_dir-tests input fallback w h = (ground arith, ground arith, ground arith)

-- An accepted target directory is the root itself or is reached from it by steps down.
pub clean_relative_dir-IsName :
    (input fallback w : Bytes)
    → clean_relative_dir input fallback ≡ ok w
    → (w ≡ bytes ".") ⊎ All IsName (split w slash)
unfolding bytes
clean_relative_dir-IsName input fallback w h =
    let (e, abs, out) = clean_relative_dir-tests input fallback w h in
    let s = chosen input fallback in
    let relative : is_abs s ≡ false = ground (arith, is_abs-clean s) in
    elim (clean-IsNormal s relative) [
      | inl d ↦ inl (e ∙ d)
      | inr n ↦ inr (
          names-of-normal w (split w slash) refl (subst (λ u. IsNormal (split u slash)) (sym e) n)
            out)
    ]
