-- ===== src/Scaffold/GoPackageOption/Replace.antt =====
-- What ReplaceGoPackage does to a proto file with one option line.
use web_template_go.Prelude.{
  ℕ, suc, [], ◌∷◌, ◌++◌, Bool, true, false, not, ◌&&◌, ◌==◌, ltb, ◌≡◌, ◌≢◌, refl, sym, ap, ◌∙◌,
  arith, length, take, append_assoc, All-append,
}
use web_template_go.Text.{Bytes, bytes, Lacks, Unicode}
use web_template_go.Errors.{ok}
use web_template_go.Scaffold.GoPackageOption.{
  quote, option_head, option_tail, match_length, has_option, expand, inner_text, replace_all,
  go_package_option, replace_go_package,
}
use web_template_go.Scaffold.GoPackageOption.Match.{match_length-option}

-- Whether a line begins behind `a`.
abbrev pub line_state : Bool → Bytes → Bool
line_state at_start [] = at_start
line_state at_start (c ∷ a) = line_state (c == b'\n') a

-- No match begins in `a`, with `rest` behind it.
abbrev pub quiet : Bool → Bytes → Bytes → Bool
quiet at_start [] rest = true
quiet at_start (c ∷ a) rest =
    not (at_start && ltb 0 (match_length (c ∷ (a ++ rest)))) && quiet (c == b'\n') a rest

line_state-append : (b : Bool) (a : Bytes) (c : ℕ) → line_state b (a ++ c ∷ []) ≡ (c == b'\n')
line_state-append b [] c = refl
line_state-append b (d ∷ a) c = line_state-append (d == b'\n') a c

-- A template without `$` stands for itself.
expand-Lacks :
    (tables : Unicode) (whole inner t : Bytes) → Lacks b'$' t → expand tables whole inner 0 t ≡ t
unfolding expand
expand-Lacks tables whole inner [] h = refl
expand-Lacks tables whole inner (c ∷ t) (hc, ht) =
    ground (arith, expand-Lacks tables whole inner t ht)

module _ (tables : Unicode) (template : Bytes) where
  replace_all-skip :
      (u s : Bytes) (at_start : Bool)
      → replace_all tables template at_start (length u) (u ++ s)
        ≡ replace_all tables template (line_state at_start u) 0 s
  unfolding replace_all
  replace_all-skip [] s at_start = refl
  replace_all-skip (c ∷ u) s at_start = replace_all-skip u s (c == b'\n')

  replace_all-quiet :
      (a s : Bytes) (at_start : Bool)
      → quiet at_start a s ≡ true
      → replace_all tables template at_start 0 (a ++ s)
        ≡ a ++ replace_all tables template (line_state at_start a) 0 s
  unfolding replace_all
  replace_all-quiet [] s at_start h = refl
  replace_all-quiet (c ∷ a) s at_start h = ground (arith, replace_all-quiet a s (c == b'\n'))

  replace_all-none :
      (b : Bytes) (at_start : Bool)
      → has_option at_start b ≡ false
      → replace_all tables template at_start 0 b ≡ b
  unfolding replace_all has_option
  replace_all-none [] at_start h = refl
  replace_all-none (c ∷ b) at_start h = ground (arith, replace_all-none b (c == b'\n'))

  replace_all-here :
      (c : ℕ) (s b : Bytes)
      → Lacks b'$' template
      → match_length (c ∷ (s ++ b)) ≡ suc (length s)
      → replace_all tables template true 0 (c ∷ (s ++ b))
        ≡ template ++ replace_all tables template (line_state (c == b'\n') s) 0 b
  unfolding replace_all
  replace_all-here c s b h m = ground (
    arith,
    replace_all-skip s b (c == b'\n'),
    expand-Lacks tables (take (suc (length s)) (c ∷ (s ++ b)))
        (inner_text (c ∷ (s ++ b)) (suc (length s))) template h,
  )

has_option-append :
    (a s : Bytes) (at_start : Bool)
    → line_state at_start a ≡ true
    → has_option true s ≡ true
    → has_option at_start (a ++ s) ≡ true
unfolding has_option
has_option-append [] s at_start h k = rw h k
has_option-append (c ∷ a) s at_start h k = ground (arith, has_option-append a s (c == b'\n') h k)

-- What stands behind the first byte of an option line.
abbrev option_rest : Bytes → Bytes
option_rest old = bytes "ption go_package = \"" ++ (old ++ option_tail)

option-cons : (old : Bytes) → go_package_option old ≡ b'o' ∷ option_rest old
unfolding go_package_option option_head bytes
option-cons old = refl

line_state-option : (old : Bytes) (b : Bool) → line_state b (option_rest old) ≡ false
line_state-option old b =
    let x = bytes "ption go_package = \"" ++ (old ++ quote ∷ []) in
    let e : option_rest old ≡ x ++ b';' ∷ [] = unfold option_tail bytes in simp append_assoc in
    rw e (line_state-append b x b';')

module _ (tables : Unicode) (template : Bytes) (c : ℕ) (s b : Bytes)
    (inner : Lacks quote (c ∷ s)) where
  match-cons : match_length (b'o' ∷ (option_rest (c ∷ s) ++ b)) ≡ suc (length (option_rest (c ∷ s)))
  match-cons =
      ap (λ u. match_length (u ++ b)) (sym (option-cons (c ∷ s)))
      ∙ match_length-option c s b inner
      ∙ ap length (option-cons (c ∷ s))

  has_option-option : has_option true (go_package_option (c ∷ s) ++ b) ≡ true
  has_option-option = rw (option-cons (c ∷ s)) (unfold has_option in ground (arith, match-cons))

  replace_all-option :
      Lacks b'$' template
      → has_option false b ≡ false
      → replace_all tables template true 0 (go_package_option (c ∷ s) ++ b) ≡ template ++ b
  replace_all-option h n =
      ap (λ u. replace_all tables template true 0 (u ++ b)) (option-cons (c ∷ s))
      ∙ replace_all-here tables template b'o' (option_rest (c ∷ s)) b h match-cons
      ∙ ap (λ l. template ++ replace_all tables template l 0 b)
          (line_state-option (c ∷ s) (b'o' == b'\n'))
      ∙ ap (λ u. template ++ u) (replace_all-none tables template b false n)

-- A file with one option line, at the start of a line, gets the new package in its quotes, and
-- nothing else changes. The old package is not empty and holds no quote, the new one holds no `$`,
-- and no other match begins before or behind the line.
pub replace_go_package_once :
    (tables : Unicode) (a b new : Bytes) (c : ℕ) (s : Bytes)
    → Lacks quote (c ∷ s)
    → Lacks b'$' new
    → line_state true a ≡ true
    → quiet true a (go_package_option (c ∷ s) ++ b) ≡ true
    → has_option false b ≡ false
    → replace_go_package tables (a ++ (go_package_option (c ∷ s) ++ b)) new
      ≡ ok (a ++ (go_package_option new ++ b))
replace_go_package_once tables a b new c s inner plain line before behind =
    let template = go_package_option new in
    let t = go_package_option (c ∷ s) ++ b in
    let no_dollar : Lacks b'$' template =
      unfold go_package_option option_head option_tail bytes in
      All-append (λ d. d ≢ b'$') (bytes "option go_package = \"") (new ++ bytes "\";") (omega arith)
        (All-append (λ d. d ≢ b'$') new (bytes "\";") plain (omega arith)) in
    let found : has_option true (a ++ t) ≡ true =
      has_option-append a t true line (has_option-option tables template c s b inner) in
    let replaced : replace_all tables template true 0 (a ++ t) ≡ a ++ (template ++ b) =
      replace_all-quiet tables template a t true before
      ∙ ap (λ l. a ++ replace_all tables template l 0 t) line
      ∙ ap (λ u. a ++ u) (replace_all-option tables template c s b inner no_dollar behind) in
    unfold replace_go_package in rw found (ap ok replaced)
