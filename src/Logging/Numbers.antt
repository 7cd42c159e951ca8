-- ===== src/Logging/Numbers.antt =====
-- parseIntEnv of internal/pkg/logx/logger.go, with what it uses of fmt.Sscanf: `%d` reads a sign and
-- decimal digits into an int of 64 bits, and leaves what follows them.
use web_template_go.Databases.{is_positive, ℤ, pos, negsuc}
use web_template_go.Prelude.{
  leb, ltb, ℕ, zero, suc, ◌+◌, ◌-◌, ◌≤◌, List, [], ◌∷◌, ◌++◌, Bool, true, false, map, Option, none,
  some, if◌then◌else◌, ◌==◌, ◌≡◌, refl, arith, ◌&&◌, ◌*◌,
}
use web_template_go.Text.{Bytes, same, trim_space}

-- The int values are those from -2^63 up to 2^63 - 1.
abbrev pub int_limit : ℕ
int_limit = 9223372036854775808

unfoldable pub is_digit : ℕ → Bool
is_digit c = leb b'0' c && leb c b'9'

-- The number that the digits at the start of a text write, behind the digits of `n`.
unfoldable pub read_digits : ℕ → Bytes → ℕ
unfolding is_digit
read_digits n [] = n
read_digits n (c ∷ s) =
    let rest = read_digits (n * 10 + (c - b'0')) s in if is_digit c then rest else n

unfoldable pub scan_number : Bytes → Option ℕ
unfolding read_digits
scan_number [] = none
scan_number (c ∷ s) = if is_digit c then some (read_digits 0 (c ∷ s)) else none

abbrev negative : ℕ → ℤ
negative zero = pos 0
negative (suc n) = negsuc n

-- strconv.ParseInt on a sign and digits: an error where the number is no int.
unfoldable pub non_negative_int : Option ℕ → Option ℤ
non_negative_int none = none
non_negative_int (some n) = if ltb n int_limit then some (pos n) else none

unfoldable pub negative_int : Option ℕ → Option ℤ
negative_int none = none
negative_int (some n) = if leb n int_limit then some (negative n) else none

-- fmt.Sscanf(s, "%d", &n) for a text that does not begin with a space.
unfoldable pub scan_int : Bytes → Option ℤ
unfolding scan_number non_negative_int negative_int
scan_int [] = none
scan_int (c ∷ s) =
    if c == b'-'
    then negative_int (scan_number s)
    else if c == b'+'
    then non_negative_int (scan_number s)
    else non_negative_int (scan_number (c ∷ s))

unfoldable pub positive_or : ℤ → Option ℤ → ℤ
positive_or fallback none = fallback
positive_or fallback (some n) = if is_positive n then n else fallback

unfoldable pub parse_int_env : (Bytes → Bytes) → Bytes → ℤ → ℤ
unfolding scan_int positive_or
parse_int_env getenv name fallback =
    let raw = trim_space (getenv name) in
    if same raw [] then fallback else positive_or fallback (scan_int raw)

-- What digits write.
unfoldable pub value : ℕ → List ℕ → ℕ
value n [] = n
value n (d ∷ digits) = value (n * 10 + d) digits

abbrev pub AreDigits : List ℕ → Type 0
AreDigits [] = Unit
AreDigits (d ∷ digits) = (d ≤ 9) × AreDigits digits

-- The text ends, or goes on with something other than a digit.
abbrev pub EndsNumber : Bytes → Type 0
EndsNumber [] = Unit
EndsNumber (c ∷ s) = is_digit c ≡ false

abbrev pub digit_bytes : List ℕ → Bytes
digit_bytes digits = map (λ d. d + b'0') digits

pub is_digit-byte : (d : ℕ) → d ≤ 9 → is_digit (d + b'0') ≡ true
unfolding is_digit
is_digit-byte d h = ground (arith, h)

pub read_digits-append :
    (n : ℕ) (digits : List ℕ) (rest : Bytes)
    → AreDigits digits
    → EndsNumber rest
    → read_digits n (digit_bytes digits ++ rest) ≡ value n digits
unfolding read_digits value
read_digits-append n [] [] h k = refl
read_digits-append n [] (c ∷ rest) h k = rw k refl
read_digits-append n (d ∷ digits) rest (le, h) k =
    let e : d + b'0' - b'0' ≡ d = omega arith in
    rw (is_digit-byte d le, e) (read_digits-append (n * 10 + d) digits rest h k)
