-- ===== src/Scaffold/Edits/Import.antt =====
-- What addImport does to the text of a Go file.
use web_template_go.Prelude.{
  ℕ, suc, ◌+◌, ◌-◌, ◌≤◌, ◌<◌, List, [], ◌∷◌, ◌++◌, Bool, true, false, some, ◌≡◌, ◌≢◌, refl, sym, ap,
  ◌∙◌, arith, if◌then◌else◌, ◌⊎◌, inl, inr, Bool-cases, Option-cases, take, drop, length,
  take-append-drop, append_assoc, zero,
}
use web_template_go.Text.{
  Bytes, bytes, Occurs, contains, contains_iff, split, join, join-split, join-append, join-cons,
  trim_space,
}
use web_template_go.Scaffold.Edits.{find_close, import_line, quoted, add_import}
use web_template_go.Scaffold.Edits.Insert.{Inserted, Occurs-Inserted}

-- The place is that of one of the lines.
find_close_bounds :
    (lines : List Bytes) (i : ℕ) (in_import : Bool) (d k : ℕ)
    → find_close lines i in_import d ≡ some k
    → (i ≤ k) × (k < i + length lines)
unfolding find_close
find_close_bounds [] i in_import d k h = ground arith
find_close_bounds (line ∷ lines) i in_import d k h =
    let opens = contains (trim_space line) (bytes "(") in
    let depth = if opens then d + 1 else d in
    ground (
      arith,
      find_close_bounds lines (suc i) true (d + 1) k,
      find_close_bounds lines (suc i) in_import d k,
      find_close_bounds lines (suc i) true (depth - 1) k,
      find_close_bounds lines (suc i) true depth k,
    )

-- One more line, with its line break.
insert_line :
    (ps qs : List Bytes) (line : Bytes)
    → qs ≢ []
    → Inserted
        (join (ps ++ qs) (b'\n' ∷ []))
        (line ++ b'\n' ∷ [])
        (join (ps ++ (line ∷ qs)) (b'\n' ∷ []))
insert_line [] qs line h = record {
  left = [];
  right = join qs (b'\n' ∷ []);
  was = refl;
  becomes = join-cons line qs (b'\n' ∷ []) h ∙ sym (append_assoc line (b'\n' ∷ []) _);
}
insert_line (p ∷ ps) qs line h = record {
  left = join (p ∷ ps) (b'\n' ∷ []) ++ b'\n' ∷ [];
  right = join qs (b'\n' ∷ []);
  was =
      join-append (p ∷ ps) qs (b'\n' ∷ []) (cc) h
      ∙ sym (append_assoc (join (p ∷ ps) (b'\n' ∷ [])) (b'\n' ∷ []) (join qs (b'\n' ∷ [])));
  becomes =
      join-append (p ∷ ps) (line ∷ qs) (b'\n' ∷ []) (cc) (cc)
      ∙ ap (λ u. join (p ∷ ps) (b'\n' ∷ []) ++ (b'\n' ∷ u)) (join-cons line qs (b'\n' ∷ []) h)
      ∙ simp append_assoc;
}

drop-ne-nil : (lines : List Bytes) (k : ℕ) → k < length lines → drop k lines ≢ []
drop-ne-nil [] k h e = absurd (omega arith)
drop-ne-nil (l ∷ lines) zero h e = cc
drop-ne-nil (l ∷ lines) (suc k) h e = drop-ne-nil lines k (omega arith) e

-- addImport leaves the text as it is, or puts in the import on a line of its own.
pub add_import-cases :
    (content alias path : Bytes)
    → (add_import content alias path ≡ content)
      ⊎ Inserted content (import_line alias path ++ bytes "\n") (add_import content alias path)
unfolding add_import bytes
add_import-cases content alias path = elim (Bool-cases (contains content (quoted path))) [
  | inl c ↦ inl (rw c)
  | inr c ↦ elim (Option-cases (find_close (split content b'\n') 0 false 0)) [
    | inl n ↦ inl (rw (c, n))
    | inr (i, e) ↦
        let lines = split content b'\n' in
        let b = find_close_bounds lines 0 false 0 i e in
        let ins =
          insert_line (take i lines) (drop i lines) (import_line alias path)
            (drop-ne-nil lines i (omega (arith, b.1))) in
        let old : join (take i lines ++ drop i lines) (b'\n' ∷ []) ≡ content =
          ap (λ l. join l (b'\n' ∷ [])) (take-append-drop i lines) ∙ join-split content b'\n' in
        let new : add_import content alias path
            ≡ join (take i lines ++ (import_line alias path ∷ drop i lines)) (b'\n' ∷ []) =
          rw (c, e) in
        inr (record {
          left = ins.left;
          right = ins.right;
          was = sym old ∙ ins.was;
          becomes = new ∙ ins.becomes;
        })
  ]
]

Occurs-import_line :
    (alias path : Bytes) → Occurs (import_line alias path ++ bytes "\n") (quoted path)
unfolding import_line quoted bytes
Occurs-import_line alias path = (b'\t' ∷ (alias ++ b' ' ∷ []), b'\n' ∷ [], simp append_assoc)

add_import-known :
    (content alias path : Bytes)
    → contains content (quoted path) ≡ true
    → add_import content alias path ≡ content
unfolding add_import
add_import-known content alias path h = rw h

-- A second run of addImport changes nothing.
pub add_import_again :
    (content alias path : Bytes)
    → add_import (add_import content alias path) alias path ≡ add_import content alias path
add_import_again content alias path = elim (add_import-cases content alias path) [
  | inl e ↦ ap (λ c. add_import c alias path) e
  | inr i ↦
      add_import-known (add_import content alias path) alias path
        ((contains_iff _ _).1 (Occurs-Inserted (quoted path) i (Occurs-import_line alias path)))
]
