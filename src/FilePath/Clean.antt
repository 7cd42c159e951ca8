-- ===== src/FilePath/Clean.antt =====
-- What filepath.Clean returns: names that step down, after any ".." that lead out.
use web_template_go.Prelude.{
  List, [], ◌∷◌, true, false, ◌≡◌, refl, ◌⊎◌, inl, inr, arith, All, Bool-cases,
}
use web_template_go.Text.{Bytes, same, same_iff, split, Lacks, split-join, split-All-Lacks}
use web_template_go.FilePath.Names.{
  slash, dot_dot, IsName, step_up, step, unstack, walk, is_abs, show_names, clean,
}

abbrev pub IsDots : Bytes → Type 0
IsDots n = n ≡ dot_dot

-- Names that step down, behind any number of "..".
abbrev pub IsNormal : List Bytes → Type 0
IsNormal [] = Unit
IsNormal (n ∷ ns) = (IsDots n × IsNormal ns) ⊎ (IsName n × All IsName ns)

-- The same, of names that are listed backwards.
abbrev IsStack : List Bytes → Type 0
IsStack [] = Unit
IsStack (n ∷ ns) = (IsName n × IsStack ns) ⊎ (IsDots n × All IsDots ns)

pub All-IsName-IsNormal : (ns : List Bytes) → All IsName ns → IsNormal ns
All-IsName-IsNormal [] h = tt
All-IsName-IsNormal (n ∷ ns) (h, hs) = inr (h, hs)

unstack-dots : (st ns : List Bytes) → All IsDots st → IsNormal ns → IsNormal (unstack st ns)
unfolding unstack
unstack-dots [] ns h k = k
unstack-dots (n ∷ st) ns (h, hs) k = unstack-dots st (n ∷ ns) hs (inl (h, k))

unstack-IsNormal : (st ns : List Bytes) → IsStack st → All IsName ns → IsNormal (unstack st ns)
unfolding unstack
unstack-IsNormal [] ns h k = All-IsName-IsNormal ns k
unstack-IsNormal (n ∷ st) ns (inl (h, hs)) k = unstack-IsNormal st (n ∷ ns) hs (h, k)
unstack-IsNormal (n ∷ st) ns (inr (h, hs)) k =
    unstack-dots st (n ∷ ns) hs (inl (h, All-IsName-IsNormal ns k))

IsStack-tail :
    (n : Bytes) (st : List Bytes) → IsStack (n ∷ st) → same n dot_dot ≡ false → IsStack st
IsStack-tail n st (inl (h, hs)) e = hs
IsStack-tail n st (inr (h, hs)) e = ground (arith, same_iff n dot_dot)

-- A ".." on top stands on ".." alone.
IsStack-IsDots :
    (n : Bytes) (st : List Bytes) → IsStack (n ∷ st) → same n dot_dot ≡ true → All IsDots st
IsStack-IsDots n st (inl (h, hs)) e = absurd (h.ne_dot_dot ((same_iff n dot_dot).0 e))
IsStack-IsDots n st (inr (h, hs)) e = hs

step_up-IsStack : (st : List Bytes) → IsStack st → IsStack (step_up false st)
unfolding step_up
step_up-IsStack [] h = inr (refl, tt)
step_up-IsStack (n ∷ st) h = elim (Bool-cases (same n dot_dot)) [
  | inl e ↦ rw e (inr (refl, ((same_iff n dot_dot).0 e, IsStack-IsDots n st h e)))
  | inr e ↦ rw e (IsStack-tail n st h e)
]

name_of_tests :
    (n : Bytes)
    → Lacks slash n
    → same n [] ≡ false
    → same n (b'.' ∷ []) ≡ false
    → same n dot_dot ≡ false
    → IsName n
name_of_tests n l a b c = record {
  no_slash = l;
  ne_nil = ground (arith, same_iff n []);
  ne_dot = ground (arith, same_iff n (b'.' ∷ []));
  ne_dot_dot = ground (arith, same_iff n dot_dot);
}

step-IsStack :
    (n : Bytes) (st : List Bytes) → Lacks slash n → IsStack st → IsStack (step false n st)
unfolding step
step-IsStack n st l h = elim (Bool-cases (same n [])) [
  | inl a ↦ rw a h
  | inr a ↦ elim (Bool-cases (same n (b'.' ∷ []))) [
    | inl b ↦ rw (a, b) h
    | inr b ↦ elim (Bool-cases (same n dot_dot)) [
      | inl c ↦ rw (a, b, c) (step_up-IsStack st h)
      | inr c ↦ rw (a, b, c) (inl (name_of_tests n l a b c, h))
    ]
  ]
]

walk-IsNormal :
    (ns st : List Bytes) → All (Lacks slash) ns → IsStack st → IsNormal (walk false ns st)
unfolding walk
walk-IsNormal [] st l h = unstack-IsNormal st [] h tt
walk-IsNormal (n ∷ ns) st (l, ls) h = walk-IsNormal ns (step false n st) ls (step-IsStack n st l h)

pub IsNormal-Lacks : (ns : List Bytes) → IsNormal ns → All (Lacks slash) ns
IsNormal-Lacks [] h = tt
IsNormal-Lacks (n ∷ ns) (inl (e, h)) = (rw e (omega arith), IsNormal-Lacks ns h)
IsNormal-Lacks (n ∷ ns) (inr (h, hs)) = (h.no_slash, names-Lacks ns hs)
  where
    names-Lacks : (ms : List Bytes) → All IsName ms → All (Lacks slash) ms
    names-Lacks [] k = tt
    names-Lacks (m ∷ ms) (k, ks) = (k.no_slash, names-Lacks ms ks)

show_names-cases :
    (ns : List Bytes)
    → IsNormal ns
    → (show_names false ns ≡ b'.' ∷ []) ⊎ IsNormal (split (show_names false ns) slash)
unfolding show_names
show_names-cases [] h = inl refl
show_names-cases (n ∷ ns) h = inr (rw (split-join n ns slash (IsNormal-Lacks (n ∷ ns) h)) h)

-- Of a relative path Clean returns ".", or names that step down behind any number of "..".
pub clean-IsNormal :
    (s : Bytes) → is_abs s ≡ false → (clean s ≡ b'.' ∷ []) ⊎ IsNormal (split (clean s) slash)
unfolding clean
clean-IsNormal s h =
    rw h (show_names-cases _ (walk-IsNormal (split s slash) [] (split-All-Lacks s slash) tt))
