-- ===== src/Scaffold/Naming/Camel.antt =====
-- Names in camel case hold no separator.
use web_template_go.Prelude.{
  ℕ, List, [], ◌∷◌, ◌++◌, false, ◌≡◌, arith, All, All-append, Bool-cases, inl, inr,
}
use web_template_go.Text.{Bytes, to_upper_one}
use web_template_go.Scaffold.Naming.{
  is_separator, flush, fields_from, fields, capitalize, upper_parts, upper_camel,
}

abbrev pub NoSeparator : Bytes → Type 0
NoSeparator = All (λ c. is_separator c ≡ false)

flush-NoSeparator :
    (cur : Bytes) (fs : List Bytes)
    → NoSeparator cur
    → All NoSeparator fs
    → All NoSeparator (flush cur fs)
unfolding flush
flush-NoSeparator [] fs h hs = hs
flush-NoSeparator (c ∷ s) fs h hs = (h, hs)

fields_from-NoSeparator : (s cur : Bytes) → NoSeparator cur → All NoSeparator (fields_from s cur)
unfolding fields_from
fields_from-NoSeparator [] cur h = flush-NoSeparator cur [] h tt
fields_from-NoSeparator (c ∷ s) cur h = elim (Bool-cases (is_separator c)) [
  | inl e ↦ rw e (flush-NoSeparator cur _ h (fields_from-NoSeparator s [] tt))
  | inr e ↦ rw e (
      fields_from-NoSeparator s (cur ++ c ∷ [])
        (All-append (λ d. is_separator d ≡ false) cur (c ∷ []) h (e, tt)))
]

to_upper_one-NoSeparator : (c : ℕ) → is_separator c ≡ false → NoSeparator (to_upper_one c)
unfolding to_upper_one
to_upper_one-NoSeparator c h = ground arith

capitalize-NoSeparator : (s : Bytes) → NoSeparator s → NoSeparator (capitalize s)
unfolding capitalize
capitalize-NoSeparator [] h = tt
capitalize-NoSeparator (c ∷ s) (h, hs) =
    All-append (λ d. is_separator d ≡ false) (to_upper_one c) s (to_upper_one-NoSeparator c h) hs

upper_parts-NoSeparator : (ps : List Bytes) → All NoSeparator ps → NoSeparator (upper_parts ps)
unfolding upper_parts
upper_parts-NoSeparator [] h = tt
upper_parts-NoSeparator (p ∷ ps) (h, hs) =
    All-append (λ d. is_separator d ≡ false) (capitalize p) (upper_parts ps)
      (capitalize-NoSeparator p h) (upper_parts-NoSeparator ps hs)

-- Whatever the file is called, its name in upper camel case holds no '-', '_' or '.'.
pub upper_camel-NoSeparator : (input : Bytes) → NoSeparator (upper_camel input)
unfolding upper_camel
upper_camel-NoSeparator input =
    upper_parts-NoSeparator (fields input) (fields_from-NoSeparator input [] tt)
