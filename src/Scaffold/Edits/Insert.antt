-- ===== src/Scaffold/Edits/Insert.antt =====
-- Insertions keep what stood in the text.
use web_template_go.Prelude.{
  ℕ, ◌++◌, ◌≡◌, refl, sym, ap, ◌∙◌, take, drop, take-append-drop, append_assoc,
}
use web_template_go.Text.{Bytes, Occurs}
use web_template_go.Scaffold.Edits.{insert_at}

-- `after` is `before` with `insert` put in at one place.
pub record Inserted (before insert after : Bytes) : Type 0 where
  pub left : Bytes
  pub right : Bytes
  pub was : before ≡ left ++ right
  pub becomes : after ≡ left ++ (insert ++ right)

pub insert_at-Inserted : (i : ℕ) (insert str : Bytes) → Inserted str insert (insert_at i insert str)
unfolding insert_at
insert_at-Inserted i insert str = record {
  left = take i str;
  right = drop i str;
  was = sym (take-append-drop i str);
  becomes = refl;
}

-- What occurs in the insertion occurs in the text.
pub Occurs-Inserted :
    {before insert after : Bytes} (sub : Bytes)
    → Inserted before insert after
    → Occurs insert sub
    → Occurs after sub
Occurs-Inserted sub i (a, b, e) = (
  i.left ++ a,
  b ++ i.right,
  i.becomes ∙ ap (λ u. i.left ++ (u ++ i.right)) e ∙ simp append_assoc,
)
