-- ===== src/Text/Parts.antt =====
-- strings.Split at one byte, and strings.Join.
use web_template_go.Text.Search.{index, Occurs}
use web_template_go.Prelude.{
  ℕ, List, [], ◌∷◌, ◌++◌, true, ◌≡◌, ◌≢◌, refl, sym, ap, ◌∙◌, arith, ◌==◌, ==_iff, if◌then◌else◌,
  length, drop, All, Bool-cases, inl, inr, append_assoc, some, zero, suc,
}
use web_template_go.Text.Basic.{Bytes, has_prefix, has_prefix-eq}

abbrev pub Lacks : ℕ → Bytes → Type 0
Lacks b = All (λ c. c ≢ b)

prepend : ℕ → List Bytes → List Bytes
prepend c [] = (c ∷ []) ∷ []
prepend c (p ∷ ps) = (c ∷ p) ∷ ps

-- strings.Split(s, sep) at a separator of one byte
unfoldable pub split : Bytes → ℕ → List Bytes
unfolding prepend
split [] sep = [] ∷ []
split (c ∷ s) sep = let rest = split s sep in if c == sep then [] ∷ rest else prepend c rest

-- strings.Join(parts, sep)
unfoldable pub join : List Bytes → Bytes → Bytes
join [] sep = []
join (p ∷ []) sep = p
join (p ∷ q ∷ ps) sep = p ++ (sep ++ join (q ∷ ps) sep)

prepend-ne-nil : (c : ℕ) (ps : List Bytes) → prepend c ps ≢ []
unfolding prepend
prepend-ne-nil c [] h = cc
prepend-ne-nil c (p ∷ ps) h = cc

pub split-ne-nil : (s : Bytes) (sep : ℕ) → split s sep ≢ []
unfolding split
split-ne-nil [] sep h = cc
split-ne-nil (c ∷ s) sep h = ground (arith, prepend-ne-nil c (split s sep))

join-prepend : (c : ℕ) (ps : List Bytes) (sep : Bytes) → join (prepend c ps) sep ≡ c ∷ join ps sep
unfolding join prepend
join-prepend c [] sep = refl
join-prepend c (p ∷ []) sep = refl
join-prepend c (p ∷ q ∷ ps) sep = refl

join-cons-nil : (ps : List Bytes) (sep : Bytes) → ps ≢ [] → join ([] ∷ ps) sep ≡ sep ++ join ps sep
unfolding join
join-cons-nil [] sep h = absurd (h refl)
join-cons-nil (p ∷ ps) sep h = refl

-- Joining the parts of a split gives the text back.
pub join-split : (s : Bytes) (sep : ℕ) → join (split s sep) (sep ∷ []) ≡ s
unfolding split
join-split [] sep = unfold join in refl
join-split (c ∷ s) sep = elim (Bool-cases (c == sep)) [
  | inl e ↦ rw e (
      join-cons-nil (split s sep) (sep ∷ []) (split-ne-nil s sep)
      ∙ ap (λ t. sep ∷ t) (join-split s sep)
      ∙ ap (λ d. d ∷ s) (sym ((==_iff c sep).0 e)))
  | inr e ↦ rw e (join-prepend c (split s sep) (sep ∷ []) ∙ ap (λ t. c ∷ t) (join-split s sep))
]

prepend-append : (c : ℕ) (ps qs : List Bytes) → ps ≢ [] → prepend c (ps ++ qs) ≡ prepend c ps ++ qs
unfolding prepend
prepend-append c [] qs h = absurd (h refl)
prepend-append c (p ∷ ps) qs h = refl

-- A split works on both sides of a separator.
pub split-append : (s t : Bytes) (sep : ℕ) → split (s ++ (sep ∷ t)) sep ≡ split s sep ++ split t sep
unfolding split
split-append [] t sep = ground arith
split-append (c ∷ s) t sep =
    ground (
      arith,
      split-append s t sep,
      prepend-append c (split s sep) (split t sep),
      split-ne-nil s sep,
    )

pub split-Lacks : (s : Bytes) (sep : ℕ) → Lacks sep s → split s sep ≡ s ∷ []
unfolding split
split-Lacks [] sep h = refl
split-Lacks (c ∷ s) sep (hc, hs) = ground (arith, split-Lacks s sep hs, ==_iff c sep)

-- Splitting a join gives the parts back, where no part holds the separator.
pub split-join :
    (p : Bytes) (ps : List Bytes) (sep : ℕ)
    → All (Lacks sep) (p ∷ ps)
    → split (join (p ∷ ps) (sep ∷ [])) sep ≡ p ∷ ps
unfolding join
split-join p [] sep (h, _) = split-Lacks p sep h
split-join p (q ∷ ps) sep (h, hs) =
    rw (split-append p (join (q ∷ ps) (sep ∷ [])) sep, split-Lacks p sep h, split-join q ps sep hs)

prepend-Lacks :
    (c sep : ℕ) (ps : List Bytes) → c ≢ sep → All (Lacks sep) ps → All (Lacks sep) (prepend c ps)
unfolding prepend
prepend-Lacks c sep [] h hs = ((h, tt), tt)
prepend-Lacks c sep (p ∷ ps) h (hp, hs) = ((h, hp), hs)

-- No part of a split holds the separator.
pub split-All-Lacks : (s : Bytes) (sep : ℕ) → All (Lacks sep) (split s sep)
unfolding split
split-All-Lacks [] sep = (tt, tt)
split-All-Lacks (c ∷ s) sep = elim (Bool-cases (c == sep)) [
  | inl e ↦ rw e (tt, split-All-Lacks s sep)
  | inr e ↦ rw e (prepend-Lacks c sep (split s sep) (ground arith) (split-All-Lacks s sep))
]

pub join-append :
    (ps qs : List Bytes) (sep : Bytes)
    → ps ≢ []
    → qs ≢ []
    → join (ps ++ qs) sep ≡ join ps sep ++ (sep ++ join qs sep)
unfolding join
join-append [] qs sep h k = absurd (h refl)
join-append (p ∷ []) [] sep h k = absurd (k refl)
join-append (p ∷ []) (q ∷ qs) sep h k = refl
join-append (p ∷ r ∷ ps) qs sep h k = rw (join-append (r ∷ ps) qs sep (cc) k) (simp append_assoc)

-- The first part of a text that begins with a part and a separator.
pub split-has_prefix :
    (s p : Bytes) (sep : ℕ)
    → Lacks sep p
    → has_prefix s (p ++ sep ∷ []) ≡ true
    → split s sep ≡ p ∷ split (drop (length (p ++ sep ∷ [])) s) sep
split-has_prefix s p sep l h =
    let t = drop (length (p ++ sep ∷ [])) s in
    ap (λ u. split u sep) (has_prefix-eq s (p ++ sep ∷ []) h ∙ append_assoc p (sep ∷ []) t)
    ∙ split-append p t sep
    ∙ ap (λ l. l ++ split t sep) (split-Lacks p sep l)

pub join-cons :
    (p : Bytes) (qs : List Bytes) (sep : Bytes)
    → qs ≢ []
    → join (p ∷ qs) sep ≡ p ++ (sep ++ join qs sep)
unfolding join
join-cons p [] sep h = absurd (h refl)
join-cons p (q ∷ qs) sep h = refl

concat-ne-nil : (ps : List Bytes) (q : Bytes) → ps ++ q ∷ [] ≢ []
concat-ne-nil [] q h = cc
concat-ne-nil (p ∷ ps) q h = cc

-- A joined text ends as its last part does.
pub join_ends :
    (ps : List Bytes) (q t sep : Bytes) → (m : Bytes) × (join (ps ++ (q ++ t) ∷ []) sep ≡ m ++ t)
join_ends [] q t sep = (q, unfold join in refl)
join_ends (p ∷ ps) q t sep =
    let (m, e) = join_ends ps q t sep in
    (
      p ++ (sep ++ m),
      join-cons p (ps ++ (q ++ t) ∷ []) sep (concat-ne-nil ps (q ++ t))
          ∙ ap (λ u. p ++ (sep ++ u)) e
          ∙ simp append_assoc,
    )

-- The first place of a byte.
pub index-Lacks :
    (s t : Bytes) (c : ℕ) → Lacks c s → index (s ++ (c ∷ t)) (c ∷ []) ≡ some (length s)
unfolding index has_prefix
index-Lacks [] t c h = ground arith
index-Lacks (d ∷ s) t c (hd, hs) = ground (arith, index-Lacks s t c hs)

-- Texts put together with `+`, or by fmt.Sprintf at each `%s`.
unfoldable pub concat : List Bytes → Bytes
concat [] = []
concat (p ∷ ps) = p ++ concat ps

pub concat-append : (ps qs : List Bytes) → concat (ps ++ qs) ≡ concat ps ++ concat qs
unfolding concat
concat-append [] qs = refl
concat-append (p ∷ ps) qs = rw (concat-append ps qs) (sym (append_assoc p (concat ps) (concat qs)))

-- What occurs in the texts from one on occurs in all of them put together.
pub Occurs-concat :
    (k : ℕ) (ps : List Bytes) (sub : Bytes)
    → Occurs (concat (drop k ps)) sub
    → Occurs (concat ps) sub
unfolding concat
Occurs-concat zero ps sub h = h
Occurs-concat (suc k) [] sub h = h
Occurs-concat (suc k) (p ∷ ps) sub h =
    let (a, b, e) = Occurs-concat k ps sub h in
    (p ++ a, b, ap (λ u. p ++ u) e ∙ sym (append_assoc p a (sub ++ b)))
