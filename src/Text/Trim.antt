-- ===== src/Text/Trim.antt =====
-- strings.TrimSpace, which cuts Unicode white space, and strings.TrimRight with an ASCII cut set.
use web_template_go.Prelude.{
  ℕ, zero, suc, [], ◌∷◌, ◌++◌, Bool, true, false, ◌&&◌, ◌||◌, ◌≡◌, arith, ◌==◌, leb, if◌then◌else◌,
  reverse,
}
use mathlib.Core.List.{reverse-append, reverse-reverse}
use web_template_go.Text.Basic.{Bytes}

-- '\t', '\n', '\v', '\f', '\r' and ' '
unfoldable pub ascii_space : ℕ → Bool
ascii_space c = leb 9 c && leb c 13 || c == 32

-- U+0085 and U+00A0 in UTF-8
wide_space2 : ℕ → ℕ → Bool
wide_space2 a b = a == 0xC2 && (b == 0x85 || b == 0xA0)

-- U+1680, U+2000 to U+200A, U+2028, U+2029, U+202F, U+205F and U+3000 in UTF-8
wide_space3 : ℕ → ℕ → ℕ → Bool
wide_space3 a b c =
    a == 0xE1 && b == 0x9A && c == 0x80
    || a == 0xE2 && b == 0x80 && (leb 0x80 c && leb c 0x8A || c == 0xA8 || c == 0xA9 || c == 0xAF)
    || a == 0xE2 && b == 0x81 && c == 0x9F
    || a == 0xE3 && b == 0x80 && c == 0x80

-- The byte at a place; 256, which is no byte, past the end.
abbrev byte_at : Bytes → ℕ → ℕ
byte_at [] i = 256
byte_at (c ∷ s) zero = c
byte_at (c ∷ s) (suc i) = byte_at s i

-- How many bytes the white space at the start takes; 0 if there is none.
unfoldable pub space_width : Bytes → ℕ
unfolding ascii_space wide_space2 wide_space3
space_width s =
    let a = byte_at s 0 in
    let b = byte_at s 1 in
    let c = byte_at s 2 in
    if ascii_space a then 1 else if wide_space2 a b then 2 else if wide_space3 a b c then 3 else 0

-- The same for the last white space of a text that is read backwards.
unfoldable pub space_width_back : Bytes → ℕ
unfolding ascii_space wide_space2 wide_space3
space_width_back s =
    let c = byte_at s 0 in
    let b = byte_at s 1 in
    let a = byte_at s 2 in
    if ascii_space c then 1 else if wide_space2 b c then 2 else if wide_space3 a b c then 3 else 0

-- Skip `k` bytes, then white space as long as there is some.
unfoldable pub skip_space : (Bytes → ℕ) → ℕ → Bytes → Bytes
skip_space width k [] = []
skip_space width (suc k) (c ∷ s) = skip_space width k s
skip_space width zero (c ∷ s) = elim (width (c ∷ s)) [ zero ↦ c ∷ s | suc k ↦ skip_space width k s ]

-- strings.TrimSpace(s)
unfoldable pub trim_space : Bytes → Bytes
unfolding space_width space_width_back skip_space
trim_space s = reverse (skip_space space_width_back 0 (reverse (skip_space space_width 0 s)))

unfoldable pub member : ℕ → Bytes → Bool
member c [] = false
member c (d ∷ s) = c == d || member c s

-- strings.TrimRight(s, cutset)
unfoldable pub trim_right : Bytes → Bytes → Bytes
unfolding member
trim_right [] cutset = []
trim_right (c ∷ s) cutset = elim (trim_right s cutset) [
  | [] ↦ if member c cutset then [] else c ∷ []
  | d ∷ t ↦ c ∷ d ∷ t
]

-- A byte that no white space begins or ends with: visible ASCII.
abbrev pub is_visible : ℕ → Bool
is_visible c = leb 33 c && leb c 126

skip_space-visible :
    (c : ℕ) (s : Bytes) → is_visible c ≡ true → skip_space space_width 0 (c ∷ s) ≡ c ∷ s
unfolding skip_space space_width
skip_space-visible c s h = ground arith

skip_space_back-visible :
    (c : ℕ) (s : Bytes) → is_visible c ≡ true → skip_space space_width_back 0 (c ∷ s) ≡ c ∷ s
unfolding skip_space space_width_back
skip_space_back-visible c s h = ground arith

-- A text between two visible bytes has nothing to trim.
pub trim_space-visible :
    (c d : ℕ) (s : Bytes)
    → is_visible c ≡ true
    → is_visible d ≡ true
    → trim_space (c ∷ (s ++ d ∷ [])) ≡ c ∷ (s ++ d ∷ [])
trim_space-visible c d s h k =
    let e : reverse (c ∷ (s ++ d ∷ [])) ≡ d ∷ reverse (c ∷ s) = reverse-append (c ∷ s) (d ∷ []) in
    unfold trim_space in
    rw (skip_space-visible c (s ++ d ∷ []) h)
      (rw e (rw (skip_space_back-visible d (reverse (c ∷ s)) k) (rw (← e) (reverse-reverse _))))

-- The same of a text that is given by its first byte and by its last.
pub trim_space_ends :
    (c d : ℕ) (s m : Bytes)
    → is_visible c ≡ true
    → is_visible d ≡ true
    → c ∷ s ≡ m ++ d ∷ []
    → trim_space (c ∷ s) ≡ c ∷ s
trim_space_ends c d s [] h k e =
    let f : s ≡ [] = ground arith in
    rw f (unfold trim_space in rw (skip_space-visible c [] h) (rw (skip_space_back-visible c [] h)))
trim_space_ends c d s (x ∷ m) h k e =
    let f : s ≡ m ++ d ∷ [] = ground arith in rw f (trim_space-visible c d m h k)

-- Nothing is cut behind a byte that is not in the cut set.
pub trim_right-append :
    (s : Bytes) (c : ℕ) (cutset : Bytes)
    → member c cutset ≡ false
    → trim_right (s ++ c ∷ []) cutset ≡ s ++ c ∷ []
unfolding trim_right
trim_right-append [] c cutset h = rw h
trim_right-append (x ∷ []) c cutset h = rw (trim_right, trim_right-append [] c cutset h)
trim_right-append (x ∷ y ∷ s) c cutset h = rw (trim_right, trim_right-append (y ∷ s) c cutset h)
