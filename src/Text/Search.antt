-- ===== src/Text/Search.antt =====
-- Index, LastIndex and Contains.
use mathlib.Core.Option
use web_template_go.Prelude.{
  ℕ, zero, suc, ◌+◌, [], ◌∷◌, ◌++◌, Bool, true, false, Option, none, some, ◌≡◌, refl, ap, ◌↔◌,
  arith, if◌then◌else◌, length, take, drop, inl, inr, Bool-cases, Option-cases,
}
use web_template_go.Text.Basic.{Bytes, has_prefix, has_prefix-append, has_prefix-eq}

-- strings.Index(s, sub); `none` is -1
unfoldable pub index : Bytes → Bytes → Option ℕ
index [] sub = if has_prefix [] sub then some 0 else none
index (c ∷ s) sub = if has_prefix (c ∷ s) sub then some 0 else Option.map suc (index s sub)

-- strings.LastIndex(s, sub)
unfoldable pub last_index : Bytes → Bytes → Option ℕ
last_index [] sub = if has_prefix [] sub then some 0 else none
last_index (c ∷ s) sub = elim (last_index s sub) [
  | some i ↦ some (suc i)
  | none ↦ if has_prefix (c ∷ s) sub then some 0 else none
]

unfoldable pub is_some {ℓ} : {A : Type ℓ} → Option A → Bool
is_some none = false
is_some (some a) = true

-- strings.Contains(s, sub)
unfoldable pub contains : Bytes → Bytes → Bool
unfolding is_some
contains s sub = is_some (index s sub)

-- `sub` stands somewhere in `s`.
abbrev pub Occurs : Bytes → Bytes → Type 0
Occurs s sub = (a : Bytes) × (b : Bytes) × (s ≡ a ++ (sub ++ b))

index-eq_here :
    (s sub : Bytes) (i : ℕ)
    → has_prefix s sub ≡ true
    → some 0 ≡ some i
    → s ≡ take i s ++ (sub ++ drop (i + length sub) s)
index-eq_here s sub zero h e =
    let z : 0 + length sub ≡ length sub = omega arith in rw z (has_prefix-eq s sub h)
index-eq_here s sub (suc i) h e = ground arith

-- A text is what stands before the place found, the searched text, and what stands after.
pub index-eq :
    (s sub : Bytes) (i : ℕ)
    → index s sub ≡ some i
    → s ≡ take i s ++ (sub ++ drop (i + length sub) s)
unfolding index
index-eq [] sub i h = elim (Bool-cases (has_prefix [] sub)) [
  | inl p ↦ index-eq_here [] sub i p (ground arith)
  | inr p ↦ ground arith
]
index-eq (c ∷ s) sub zero h = index-eq_here (c ∷ s) sub 0 (ground arith) refl
index-eq (c ∷ s) sub (suc i) h =
    let e : suc i + length sub ≡ suc (i + length sub) = omega arith in
    rw e (ap (λ t. c ∷ t) (index-eq s sub i (ground arith)))

-- The search finds a text that is there.
pub index-append : (a sub b : Bytes) → (i : ℕ) × (index (a ++ (sub ++ b)) sub ≡ some i)
unfolding index has_prefix
index-append [] [] [] = (0, refl)
index-append [] [] (c ∷ b) = (0, refl)
index-append [] (c ∷ sub) b = (0, rw (has_prefix-append (c ∷ sub) b))
index-append (c ∷ a) sub b =
    let (i, e) = index-append a sub b in
    elim (Bool-cases (has_prefix (c ∷ (a ++ (sub ++ b))) sub)) [
      | inl p ↦ (0, rw p)
      | inr p ↦ (suc i, rw p (rw e))
    ]

-- Contains tells whether the text occurs.
pub contains_iff : (s sub : Bytes) → (contains s sub ≡ true) ↔ Occurs s sub
unfolding contains
contains_iff s sub = (
  λ h. elim (Option-cases (index s sub)) [
    | inl n ↦ ground arith
    | inr (i, e) ↦ (take i s, drop (i + length sub) s, index-eq s sub i e)
  ],
  λ (a, b, e). let (i, f) = index-append a sub b in rw e (rw f),
)

pub contains-append : (a sub b : Bytes) → contains (a ++ (sub ++ b)) sub ≡ true
contains-append a sub b = (contains_iff _ sub).1 (a, b, refl)

last_index-eq_here :
    (s sub : Bytes) (i : ℕ)
    → (if has_prefix s sub then some 0 else none) ≡ some i
    → s ≡ take i s ++ (sub ++ drop (i + length sub) s)
last_index-eq_here s sub zero h = index-eq_here s sub 0 (ground arith) refl
last_index-eq_here s sub (suc i) h = ground arith

-- The same decomposition at the last place.
pub last_index-eq :
    (s sub : Bytes) (i : ℕ)
    → last_index s sub ≡ some i
    → s ≡ take i s ++ (sub ++ drop (i + length sub) s)
unfolding last_index
last_index-eq [] sub i h = last_index-eq_here [] sub i h
last_index-eq (c ∷ s) sub i h = elim (Option-cases (last_index s sub)) [
  | inl n ↦ last_index-eq_here (c ∷ s) sub i (rw n at h)
  | inr (j, e) ↦
      let k : suc j + length sub ≡ suc (j + length sub) = omega arith in
      let f : i ≡ suc j = ground arith in rw f (rw k (ap (λ t. c ∷ t) (last_index-eq s sub j e)))
]
