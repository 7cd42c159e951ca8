-- ===== src/Scaffold/Edits/Provider.antt =====
-- What updateProviderSet does to a provider set file.
use web_template_go.Prelude.{
  [], ◌∷◌, ◌++◌, true, false, some, ◌≡◌, refl, arith, Bool-cases, inl, inr, take, append-nil, sym,
  append_assoc, take-length, drop-length, ap, length, drop, ◌∙◌, ap₂, if◌then◌else◌,
}
use web_template_go.Text.{
  Bytes, bytes, Occurs, Lacks, contains, contains_iff, last_index, trim_right-append, member,
  has_suffix-same, same,
}
use web_template_go.FilePath.Laws.{last_index-append}
use web_template_go.Errors.{Result, ok}
use web_template_go.Scaffold.Edits.{
  Edit, keep, write, insert_at, provider_insert, update_provider_set, has_suffix, trim_right,
}

pub write-injective : (a b : Bytes) → ◌≡◌ {A = Result Edit} (ok (write a)) (ok (write b)) → a ≡ b
write-injective a b h = ground arith

-- What the constructor's name is written as behind the text `before`: on a line of its own if a line
-- ends there, but for blanks, and else behind a comma.
abbrev pub provider_text : Bytes → Bytes → Bytes
provider_text before name =
    if has_suffix (trim_right before (bytes " \t")) (bytes "\n")
    then bytes "\t" ++ (name ++ bytes ",\n")
    else bytes ", " ++ name

-- The name goes before the last closing parenthesis.
update_before_paren :
    (path x b name : Bytes)
    → contains (x ++ (b')' ∷ b)) name ≡ false
    → Lacks b')' b
    → update_provider_set path (x ++ (b')' ∷ b)) name
      ≡ ok (write (x ++ (provider_text x name ++ (b')' ∷ b))))
update_before_paren path x b name c l =
    let s = x ++ (b')' ∷ b) in
    let before : take (length x) s ≡ x = take-length x (b')' ∷ b) in
    let after : drop (length x) s ≡ b')' ∷ b = drop-length x (b')' ∷ b) in
    let insert : provider_insert s (length x) name ≡ provider_text x name =
      unfold provider_insert in rw before refl in
    let text : insert_at (length x) (provider_insert s (length x) name) s
        ≡ x ++ (provider_text x name ++ (b')' ∷ b)) =
      unfold insert_at in ap₂ (λ u v. u ++ v) before (ap₂ (λ u v. u ++ v) insert after) in
    let place : last_index s (bytes ")") ≡ some (length x) =
      unfold bytes in last_index-append x b b')' l in
    unfold update_provider_set in rw c (rw place (ap (λ u. ok (write u)) text))

Occurs-provider_text : (x name : Bytes) → Occurs (provider_text x name) name
Occurs-provider_text x name =
    elim (Bool-cases (has_suffix (trim_right x (bytes " \t")) (bytes "\n"))) [
      | inl e ↦ rw e (bytes "\t", bytes ",\n", refl)
      | inr e ↦ rw e (bytes ", ", [], rw append-nil)
    ]

-- A text in which the constructor's name does not occur gets it just before its last closing
-- parenthesis, on a line of its own if that stands on one, and else behind a comma; nothing else is
-- changed, and a second run changes nothing.
pub update_provider_set_again :
    (path x b name : Bytes)
    → contains (x ++ (b')' ∷ b)) name ≡ false
    → Lacks b')' b
    → let new = x ++ (provider_text x name ++ (b')' ∷ b)) in
      (update_provider_set path (x ++ (b')' ∷ b)) name ≡ ok (write new))
      × (update_provider_set path new name ≡ ok keep)
update_provider_set_again path x b name absent last =
    let new = x ++ (provider_text x name ++ (b')' ∷ b)) in
    let (before, behind, e) = Occurs-provider_text x name in
    let named : Occurs new name =
      (x ++ before, behind ++ (b')' ∷ b), ap (λ u. x ++ (u ++ (b')' ∷ b))) e ∙ simp append_assoc) in
    let found : contains new name ≡ true = (contains_iff new name).1 named in
    (update_before_paren path x b name absent last, unfold update_provider_set in rw found)

update_on_line :
    (path x b name : Bytes)
    → contains (x ++ (b')' ∷ b)) name ≡ false
    → Lacks b')' b
    → has_suffix (trim_right x (bytes " \t")) (bytes "\n") ≡ false
    → update_provider_set path (x ++ (b')' ∷ b)) name
      ≡ ok (write (x ++ ((bytes ", " ++ name) ++ (b')' ∷ b))))
update_on_line path x b name c l n = update_before_paren path x b name c l ∙ rw n refl

-- Into empty parentheses the name goes behind a comma, which gives `(, name)`.
pub update_provider_set_empty :
    (path a b name : Bytes)
    → contains (a ++ (bytes "()" ++ b)) name ≡ false
    → Lacks b')' b
    → update_provider_set path (a ++ (bytes "()" ++ b)) name
      ≡ ok (write (a ++ (bytes "(, " ++ (name ++ (bytes ")" ++ b)))))
unfolding bytes
update_provider_set_empty path a b name c l =
    let x = a ++ b'(' ∷ [] in
    let e : a ++ (bytes "()" ++ b) ≡ x ++ (b')' ∷ b) =
      sym (append_assoc a (b'(' ∷ []) (b')' ∷ b)) in
    let no_break : has_suffix (trim_right x (bytes " \t")) (bytes "\n") ≡ false =
      ap (λ u. has_suffix u (bytes "\n"))
        (trim_right-append a b'(' (bytes " \t") (unfold member in refl))
      ∙ has_suffix-same a (b'(' ∷ []) (bytes "\n") refl
      ∙ unfold same in refl in
    ap (λ s. update_provider_set path s name) e
    ∙ update_on_line path x b name (ap (λ s. contains s name) (sym e) ∙ c) l no_break
    ∙ simp append_assoc
