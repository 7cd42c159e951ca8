-- ===== src/Scaffold/Naming/Plural.antt =====
-- `singularize` on the plurals that it knows.
use web_template_go.Prelude.{
  ℕ, ◌-◌, [], ◌∷◌, ◌++◌, true, false, ◌||◌, ◌≡◌, ◌≢◌, refl, ap, ◌∙◌, arith, ltb, length, take, drop,
  length-append, take-length, drop-length, append_assoc, ◌==◌, ap₂, Bool-cases, sym, inl, inr,
}
use web_template_go.Text.{
  Bytes, bytes, same, has_suffix, has_suffix-append, has_suffix-eq, has_suffix-same,
}
use web_template_go.Scaffold.Naming.{cut_end, singularize}

cut_end-append : (w a : Bytes) (n : ℕ) → length a ≡ n → cut_end n (w ++ a) ≡ w
cut_end-append w a n h =
    let e : length (w ++ a) - n ≡ length w = omega (arith, length-append w a) in
    rw e (take-length w a)

-- Texts of one length at the end of one text are equal.
suffix_unique : (w u a b : Bytes) → w ++ a ≡ u ++ b → length a ≡ length b → a ≡ b
suffix_unique w u a b e h =
    let n : length w ≡ length u =
      omega (arith, ap length e, length-append w a, length-append u b) in
    sym (drop-length w a) ∙ ap₂ drop n e ∙ drop-length u b

-- A suffix is refused by its last bytes alone.
has_suffix-ne :
    (w a p b : Bytes) → length a ≡ length b → a ≢ b → has_suffix (w ++ a) (p ++ b) ≡ false
has_suffix-ne w a p b l d = elim (Bool-cases (has_suffix (w ++ a) (p ++ b))) [
  | inl h ↦
      let n = length (w ++ a) - length (p ++ b) in
      absurd (
        d (
          suffix_unique w (take n (w ++ a) ++ p) a b
            (has_suffix-eq (w ++ a) (p ++ b) h ∙ sym (append_assoc (take n (w ++ a)) p b)) l))
  | inr h ↦ h
]

singularize-ies : (w : Bytes) → w ≢ [] → singularize (w ++ bytes "ies") ≡ w ++ bytes "y"
unfolding singularize bytes
singularize-ies [] h = absurd (h refl)
singularize-ies (c ∷ w) h =
    let e : ltb 3 (length ((c ∷ w) ++ bytes "ies")) ≡ true =
      ground (arith, length-append w (bytes "ies")) in
    rw (has_suffix-append (c ∷ w) (bytes "ies"))
      (rw e (ap (λ u. u ++ bytes "y") (cut_end-append (c ∷ w) (bytes "ies") 3 refl)))

singularize-es :
    (w : Bytes) (x : ℕ)
    → (x == b's' || x == b'x' || x == b'z') ≡ true
    → singularize (w ++ (x ∷ bytes "es")) ≡ w ++ x ∷ []
unfolding singularize bytes same
singularize-es w x h =
    let t = x ∷ bytes "es" in
    let other : same t (bytes "ies") ≡ false = ground arith in
    let known : (same t (bytes "ses") || same t (bytes "xes") || same t (bytes "zes")) ≡ true =
      ground arith in
    let cut : cut_end 2 (w ++ t) ≡ w ++ x ∷ [] =
      ap (cut_end 2) (sym (append_assoc w (x ∷ []) (bytes "es")))
      ∙ cut_end-append (w ++ x ∷ []) (bytes "es") 2 refl in
    rw (has_suffix-same w t (bytes "ies") refl) (
      rw other (
        rw
          (
            has_suffix-same w t (bytes "ses") refl,
            has_suffix-same w t (bytes "xes") refl,
            has_suffix-same w t (bytes "zes") refl,
          )
          (rw known cut)))

singularize-s :
    (w : Bytes) (x : ℕ) → x ≢ b's' → x ≢ b'e' → singularize (w ++ (x ∷ bytes "s")) ≡ w ++ x ∷ []
unfolding singularize bytes
singularize-s w x h k =
    let t = x ∷ bytes "s" in
    let not_es : t ≢ bytes "es" = λ e. ground arith in
    let not_ss : t ≢ bytes "ss" = λ e. ground arith in
    let ends : has_suffix (w ++ t) (bytes "s") ≡ true =
      ap (λ u. has_suffix u (bytes "s")) (sym (append_assoc w (x ∷ []) (bytes "s")))
      ∙ has_suffix-append (w ++ x ∷ []) (bytes "s") in
    let cut : cut_end 1 (w ++ t) ≡ w ++ x ∷ [] =
      ap (cut_end 1) (sym (append_assoc w (x ∷ []) (bytes "s")))
      ∙ cut_end-append (w ++ x ∷ []) (bytes "s") 1 refl in
    rw (has_suffix-ne w t (bytes "i") (bytes "es") refl not_es) (
      rw
        (
          has_suffix-ne w t (bytes "s") (bytes "es") refl not_es,
          has_suffix-ne w t (bytes "x") (bytes "es") refl not_es,
          has_suffix-ne w t (bytes "z") (bytes "es") refl not_es,
        )
        (rw ends (rw (has_suffix-ne w t [] (bytes "ss") refl not_ss) cut)))

-- The plurals that singularize undoes, of a word `w` that is not empty: "-ies" for "-y", "-ses",
-- "-xes" and "-zes" for "-s", "-x" and "-z", and a plain "s" behind a byte `x` other than 's' and
-- 'e'.
pub singularize_plurals :
    (w : Bytes) (x : ℕ)
    → w ≢ []
    → x ≢ b's'
    → x ≢ b'e'
    → (singularize (w ++ bytes "ies") ≡ w ++ bytes "y")
      × (singularize (w ++ bytes "ses") ≡ w ++ bytes "s")
      × (singularize (w ++ bytes "xes") ≡ w ++ bytes "x")
      × (singularize (w ++ bytes "zes") ≡ w ++ bytes "z")
      × (singularize (w ++ (x ∷ bytes "s")) ≡ w ++ x ∷ [])
unfolding bytes
singularize_plurals w x h k l = (
  singularize-ies w h,
  singularize-es w b's' refl,
  singularize-es w b'x' refl,
  singularize-es w b'z' refl,
  singularize-s w x k l,
)
