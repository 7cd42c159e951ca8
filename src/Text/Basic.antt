-- ===== src/Text/Basic.antt =====
-- Byte strings: literals, equality, HasPrefix, HasSuffix, TrimPrefix and TrimSuffix.
use Prim.Native.Char.{code}
use web_template_go.Prelude.{
  ℕ, ◌-◌, String, List, [], ◌∷◌, ◌++◌, Bool, true, false, ◌&&◌, ◌≡◌, refl, ap, ◌↔◌, ◌∙◌, sym, arith,
  ◌==◌, leb, if◌then◌else◌, length, take, drop, drop-length, take-length, take-append-drop,
  length-append,
}

abbrev pub Bytes : Type 0
Bytes = List ℕ

-- A literal of the source. All of them are ASCII, where code points are bytes.
unfoldable pub bytes : String → Bytes
bytes String.[] = []
bytes (String.◌∷◌ c s) = code c ∷ bytes s

-- s == t
unfoldable pub same : Bytes → Bytes → Bool
same [] [] = true
same [] (d ∷ t) = false
same (c ∷ s) [] = false
same (c ∷ s) (d ∷ t) = c == d && same s t

pub same_refl : (s : Bytes) → same s s ≡ true
unfolding same
same_refl [] = refl
same_refl (c ∷ s) = ground (arith, same_refl s)

pub same-eq : (s t : Bytes) → same s t ≡ true → s ≡ t
unfolding same
same-eq [] [] h = refl
same-eq [] (d ∷ t) h = ground arith
same-eq (c ∷ s) [] h = ground arith
same-eq (c ∷ s) (d ∷ t) h = ground (arith, same-eq s t)

pub same_iff : (s t : Bytes) → (same s t ≡ true) ↔ (s ≡ t)
same_iff s t = (same-eq s t, λ e. rw e (same_refl t))

-- strings.HasPrefix(s, p)
unfoldable pub has_prefix : Bytes → Bytes → Bool
has_prefix s [] = true
has_prefix [] (c ∷ p) = false
has_prefix (x ∷ s) (c ∷ p) = x == c && has_prefix s p

pub has_prefix-append : (p s : Bytes) → has_prefix (p ++ s) p ≡ true
unfolding has_prefix
has_prefix-append [] s = refl
has_prefix-append (c ∷ p) s = ground (arith, has_prefix-append p s)

-- What follows the prefix is `s` without as many bytes.
pub has_prefix-eq : (s p : Bytes) → has_prefix s p ≡ true → s ≡ p ++ drop (length p) s
unfolding has_prefix
has_prefix-eq s [] h = refl
has_prefix-eq [] (c ∷ p) h = ground arith
has_prefix-eq (x ∷ s) (c ∷ p) h = ground (arith, has_prefix-eq s p)

-- strings.HasSuffix(s, p)
unfoldable pub has_suffix : Bytes → Bytes → Bool
has_suffix s p = leb (length p) (length s) && same (drop (length s - length p) s) p

pub has_suffix-append : (s p : Bytes) → has_suffix (s ++ p) p ≡ true
unfolding has_suffix
has_suffix-append s p =
    let e : length (s ++ p) - length p ≡ length s = omega (arith, length-append s p) in
    rw e (rw (drop-length s p) (ground (arith, same_refl p, length-append s p)))

pub has_suffix-eq : (s p : Bytes) → has_suffix s p ≡ true → s ≡ take (length s - length p) s ++ p
unfolding has_suffix
has_suffix-eq s p h =
    let n = length s - length p in
    let e : same (drop n s) p ≡ true = ground arith in
    sym (take-append-drop n s) ∙ ap (λ t. take n s ++ t) (same-eq (drop n s) p e)

-- strings.TrimPrefix(s, p)
unfoldable pub trim_prefix : Bytes → Bytes → Bytes
trim_prefix s p = if has_prefix s p then drop (length p) s else s

-- strings.TrimSuffix(s, p)
unfoldable pub trim_suffix : Bytes → Bytes → Bytes
trim_suffix s p = if has_suffix s p then take (length s - length p) s else s

pub trim_suffix-append : (s p : Bytes) → trim_suffix (s ++ p) p ≡ s
unfolding trim_suffix
trim_suffix-append s p =
    let e : length (s ++ p) - length p ≡ length s = omega (arith, length-append s p) in
    rw (has_suffix-append s p) (rw e (take-length s p))

-- Two suffixes of one length are compared byte by byte.
pub has_suffix-same : (w a b : Bytes) → length a ≡ length b → has_suffix (w ++ a) b ≡ same a b
unfolding has_suffix
has_suffix-same w a b h =
    let e : length (w ++ a) - length b ≡ length w = omega (arith, length-append w a) in
    rw e (rw (drop-length w a) (ground (arith, length-append w a)))
