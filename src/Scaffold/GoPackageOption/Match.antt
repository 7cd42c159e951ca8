-- ===== src/Scaffold/GoPackageOption/Match.antt =====
-- Where the expression matches.
use web_template_go.Prelude.{
  ℕ, ◌+◌, ◌<◌, [], ◌∷◌, ◌++◌, Bool, true, ◌==◌, ◌≡◌, ap, ◌∙◌, arith, length, drop, drop-length,
  append_assoc, length-append,
}
use web_template_go.Text.{Bytes, bytes, has_prefix, has_prefix-append, Lacks}
use web_template_go.Scaffold.GoPackageOption.{
  quote, option_head, option_tail, run_length, match_length, has_option, go_package_option,
}

run_length-Lacks : (s t : Bytes) → Lacks quote s → run_length (s ++ (quote ∷ t)) ≡ length s
unfolding run_length
run_length-Lacks [] t h = ground arith
run_length-Lacks (c ∷ s) t (hc, hs) = ground (arith, run_length-Lacks s t hs)

match_length-body :
    (c : ℕ) (s b : Bytes)
    → Lacks quote (c ∷ s)
    → match_length (option_head ++ ((c ∷ s) ++ (option_tail ++ b)))
      ≡ length option_head + length (c ∷ s) + length option_tail
match_length-body c s b h =
    let rest = option_tail ++ b in
    let body = (c ∷ s) ++ rest in
    let d : drop (length option_head) (option_head ++ body) ≡ body = drop-length option_head body in
    let n : run_length body ≡ length (c ∷ s) =
      unfold option_tail bytes in run_length-Lacks (c ∷ s) (b';' ∷ b) h in
    let after : drop (length (c ∷ s)) body ≡ rest = drop-length (c ∷ s) rest in
    unfold match_length in
    rw (has_prefix-append option_head body)
      (rw d (rw n (rw after (rw (has_prefix-append option_tail b) (ground arith)))))

-- An option whose quotes hold a text without quotes matches whole.
pub match_length-option :
    (c : ℕ) (s b : Bytes)
    → Lacks quote (c ∷ s)
    → match_length (go_package_option (c ∷ s) ++ b) ≡ length (go_package_option (c ∷ s))
unfolding go_package_option
match_length-option c s b h =
    let e : go_package_option (c ∷ s) ++ b ≡ option_head ++ ((c ∷ s) ++ (option_tail ++ b)) =
      simp append_assoc in
    ap match_length e
    ∙ match_length-body c s b h
    ∙ omega (
      arith,
      length-append option_head ((c ∷ s) ++ option_tail),
      length-append (c ∷ s) option_tail,
    )

has_option-here : (s : Bytes) → 0 < match_length s → has_option true s ≡ true
unfolding has_option
has_option-here [] h = unfold match_length option_head bytes has_prefix in absurd (omega arith)
has_option-here (c ∷ s) h = ground arith

-- A match at the start of a line is found, whatever stands before.
pub has_option-line :
    (a s : Bytes) (at_start : Bool)
    → 0 < match_length s
    → has_option at_start (a ++ (b'\n' ∷ s)) ≡ true
unfolding has_option
has_option-line [] s at_start h = ground (arith, has_option-here s h)
has_option-line (c ∷ a) s at_start h = ground (arith, has_option-line a s (c == b'\n') h)
