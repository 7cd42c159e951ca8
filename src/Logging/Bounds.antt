-- ===== src/Logging/Bounds.antt =====
-- Which numbers parseIntEnv returns, and what the logger makes of them.
use web_template_go.Databases.{is_positive, or_default, ℤ, pos, negsuc}
use web_template_go.Prelude.{
  Bool-cases, ltb, ℕ, zero, suc, ◌+◌, ◌<◌, List, [], ◌∷◌, ◌++◌, true, false, Option, none, some,
  if◌then◌else◌, ap, ◌==◌, ◌∙◌, ◌≡◌, ◌≢◌, refl, inl, inr, arith, ◌&&◌,
}
use web_template_go.Text.{Bytes, same, trim_space, Unicode, bytes, same_refl}
use web_template_go.Logging.{
  RotateWriter, Writer, standard_output, rotating, standard_output_and, Options, build_writer,
  env_options, new_logger, new_with_options, rotate_writer,
}
use web_template_go.Logging.Numbers.{
  parse_int_env, AreDigits, EndsNumber, digit_bytes, int_limit, negative_int, non_negative_int,
  positive_or, scan_int, scan_number, value, is_digit-byte, read_digits-append, is_digit,
  read_digits,
}

-- A positive int of 64 bits.
abbrev pub IsPositiveInt : ℤ → Type 0
IsPositiveInt (pos n) = (0 < n) × (n < int_limit)
IsPositiveInt (negsuc n) = ⊥

positive_or_limit :
    (fallback : ℤ) (n : ℕ)
    → positive_or fallback (non_negative_int (some n))
      ≡ (if ltb 0 n && ltb n int_limit then pos n else fallback)
unfolding positive_or non_negative_int is_positive
positive_or_limit fallback n = elim (Bool-cases (ltb n int_limit)) [
  | inl e ↦ elim (Bool-cases (ltb 0 n)) [ inl f ↦ rw (e, f) refl | inr f ↦ rw (e, f) refl ]
  | inr e ↦ elim (Bool-cases (ltb 0 n)) [ inl f ↦ rw (e, f) refl | inr f ↦ rw (e, f) refl ]
]

scan_number-digit :
    (c : ℕ) (s : Bytes) → is_digit c ≡ true → scan_number (c ∷ s) ≡ some (read_digits 0 (c ∷ s))
unfolding scan_number
scan_number-digit c s h = rw h refl

module _ (d : ℕ) (digits : List ℕ) (rest : Bytes) (are_digits : AreDigits (d ∷ digits))
    (ends : EndsNumber rest) where
  scan_number-digits : scan_number (digit_bytes (d ∷ digits) ++ rest) ≡ some (value 0 (d ∷ digits))
  scan_number-digits =
      scan_number-digit (d + b'0') (digit_bytes digits ++ rest) (is_digit-byte d are_digits.0)
      ∙ ap some (read_digits-append 0 (d ∷ digits) rest are_digits ends)

  scan_int-digits :
      scan_int (digit_bytes (d ∷ digits) ++ rest) ≡ non_negative_int (some (value 0 (d ∷ digits)))
  unfolding scan_int
  scan_int-digits =
      let minus : (d + b'0' == b'-') ≡ false = ground (arith, are_digits) in
      let plus : (d + b'0' == b'+') ≡ false = ground (arith, are_digits) in
      rw (minus, plus) (ap non_negative_int scan_number-digits)

-- A variable that begins with decimal digits, and goes on with nothing or with something else than a
-- digit, gives the number that the digits write, if that is positive and an int of 64 bits; and else
-- the fallback.
pub parse_int_env-digits :
    (getenv : Bytes → Bytes) (name : Bytes) (fallback : ℤ) (d : ℕ) (digits : List ℕ) (rest : Bytes)
    → AreDigits (d ∷ digits)
    → EndsNumber rest
    → trim_space (getenv name) ≡ digit_bytes (d ∷ digits) ++ rest
    → parse_int_env getenv name fallback
      ≡ (let n = value 0 (d ∷ digits) in if ltb 0 n && ltb n int_limit then pos n else fallback)
unfolding parse_int_env same
parse_int_env-digits getenv name fallback d digits rest h k e = rw e (
    ap (positive_or fallback) (scan_int-digits d digits rest h k)
    ∙ positive_or_limit fallback (value 0 (d ∷ digits)))

positive_or-IsPositiveInt :
    (fallback : ℤ) (n : Option ℤ)
    → IsPositiveInt fallback
    → ((m : ℤ) → n ≡ some m → is_positive m ≡ true → IsPositiveInt m)
    → IsPositiveInt (positive_or fallback n)
unfolding positive_or
positive_or-IsPositiveInt fallback none h k = h
positive_or-IsPositiveInt fallback (some m) h k = elim (Bool-cases (is_positive m)) [
  | inl e ↦ rw e (k m refl e)
  | inr e ↦ rw e h
]

non_negative_int-IsPositiveInt :
    (n : Option ℕ) (m : ℤ) → non_negative_int n ≡ some m → is_positive m ≡ true → IsPositiveInt m
unfolding non_negative_int is_positive
non_negative_int-IsPositiveInt none m h k = ground arith
non_negative_int-IsPositiveInt (some n) (pos m) h k = ground arith
non_negative_int-IsPositiveInt (some n) (negsuc m) h k = ground arith

negative_int-IsPositiveInt :
    (n : Option ℕ) (m : ℤ) → negative_int n ≡ some m → is_positive m ≡ true → IsPositiveInt m
unfolding negative_int is_positive
negative_int-IsPositiveInt none m h k = ground arith
negative_int-IsPositiveInt (some zero) (pos m) h k = ground arith
negative_int-IsPositiveInt (some (suc n)) (pos m) h k = ground arith
negative_int-IsPositiveInt (some n) (negsuc m) h k = ground arith

scan_int-IsPositiveInt :
    (s : Bytes) (m : ℤ) → scan_int s ≡ some m → is_positive m ≡ true → IsPositiveInt m
unfolding scan_int
scan_int-IsPositiveInt [] m h k = ground arith
scan_int-IsPositiveInt (c ∷ s) m h k = elim (Bool-cases (c == b'-')) [
  | inl e ↦ negative_int-IsPositiveInt (scan_number s) m (rw e at h) k
  | inr e ↦ elim (Bool-cases (c == b'+')) [
    | inl f ↦ non_negative_int-IsPositiveInt (scan_number s) m (rw (e, f) at h) k
    | inr f ↦ non_negative_int-IsPositiveInt (scan_number (c ∷ s)) m (rw (e, f) at h) k
  ]
]

parse_int_env-IsPositiveInt :
    (getenv : Bytes → Bytes) (name : Bytes) (fallback : ℤ)
    → IsPositiveInt fallback
    → IsPositiveInt (parse_int_env getenv name fallback)
unfolding parse_int_env
parse_int_env-IsPositiveInt getenv name fallback h =
    let raw = trim_space (getenv name) in
    elim (Bool-cases (same raw [])) [
      | inl e ↦ rw e h
      | inr e ↦
          rw e (positive_or-IsPositiveInt fallback (scan_int raw) h (scan_int-IsPositiveInt raw))
    ]

or_default-IsPositiveInt :
    (fallback n : ℤ)
    → IsPositiveInt fallback
    → IsPositiveInt n
    → IsPositiveInt (or_default fallback n)
unfolding or_default
or_default-IsPositiveInt fallback n h k = elim (Bool-cases (is_positive n)) [
  | inl e ↦ rw e k
  | inr e ↦ rw e h
]

-- What a file of the log is opened with: a name, and positive limits.
abbrev pub IsBounded : RotateWriter → Type 0
IsBounded w =
    (w.filename ≢ [])
    × IsPositiveInt w.max_size
    × IsPositiveInt w.max_backups
    × IsPositiveInt w.max_age

abbrev pub IsBoundedWriter : Writer → Type 0
IsBoundedWriter standard_output = Unit
IsBoundedWriter (rotating w) = IsBounded w
IsBoundedWriter (standard_output_and w) = IsBounded w

build_writer-IsBoundedWriter :
    (opts : Options)
    → IsPositiveInt opts.max_size_mb
    → IsPositiveInt opts.max_backups
    → IsPositiveInt opts.max_age_days
    → IsBoundedWriter (build_writer opts)
unfolding build_writer rotate_writer
build_writer-IsBoundedWriter opts size backups age =
    elim (Bool-cases (same (trim_space opts.filename) [])) [
      | inl e ↦ rw e tt
      | inr e ↦
          let bounded : IsBounded (rotate_writer opts) = (
            λ p. let k : same [] [] ≡ false = rw p at e in ground (arith, k, same_refl []),
            or_default-IsPositiveInt (pos 100) opts.max_size_mb (omega arith) size,
            or_default-IsPositiveInt (pos 7) opts.max_backups (omega arith) backups,
            or_default-IsPositiveInt (pos 30) opts.max_age_days (omega arith) age,
          ) in
          elim (Bool-cases opts.to_stdout) [ inl f ↦ rw (e, f) bounded | inr f ↦ rw (e, f) bounded ]
    ]

-- Whatever the environment is, the logger that New makes writes to standard output, or to a file that
-- has a name and whose size, backups and age are limited by positive ints.
pub new_logger-IsBoundedWriter :
    (tables : Unicode) (getenv : Bytes → Bytes) → IsBoundedWriter (new_logger tables getenv).writer
unfolding new_logger new_with_options env_options
new_logger-IsBoundedWriter tables getenv =
    build_writer-IsBoundedWriter (env_options tables getenv)
      (parse_int_env-IsPositiveInt getenv (bytes "LOG_MAX_SIZE_MB") (pos 100) (omega arith))
      (parse_int_env-IsPositiveInt getenv (bytes "LOG_MAX_BACKUPS") (pos 7) (omega arith))
      (parse_int_env-IsPositiveInt getenv (bytes "LOG_MAX_AGE_DAYS") (pos 30) (omega arith))
