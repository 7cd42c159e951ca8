-- ===== src/Errors.antt =====
-- Go's `error` values, and the result of a function that returns `(value, error)`.
use web_template_go.Prelude.{ℕ, Bool, true, false, ◌≡◌, arith}
use web_template_go.Text.{Bytes}

-- Why a call of package os failed.
pub data Reason : Type 0 where
  not_exist permission is_directory not_directory : Reason

pub data Error : Type 0 where
  -- errors.New(text), and fmt.Errorf with no %w
  message : Bytes → Error
  -- fmt.Errorf("context: %w", err)
  wrapped : Bytes → Error → Error
  -- an error of package os: the operation, why it failed, and the path
  path_error : Bytes → Reason → Bytes → Error
  -- an error of the kratos library: HTTP status, reason and message
  status : ℕ → Bytes → Bytes → Error
  -- an error that other code returned
  foreign : ℕ → Error

-- errors.Is(err, os.ErrNotExist)
unfoldable pub is_not_exist : Error → Bool
is_not_exist (wrapped context e) = is_not_exist e
is_not_exist (path_error op not_exist path) = true
is_not_exist _ = false

-- A value, or the error that a caller passes on.
pub data Result {ℓ} (A : Type ℓ) : Type ℓ where
  err : Error → Result A
  ok : A → Result A

module _ {ℓ κ} {A : Type ℓ} {B : Type κ} where
  -- `if err != nil { return err }`, then the rest of the function
  infixl 5 ◌>>=◌
  abbrev pub ◌>>=◌ : Result A → (A → Result B) → Result B
  ◌>>=◌ (err e) rest = err e
  ◌>>=◌ (ok value) rest = rest value

module _ {ℓ} {B : Type ℓ} where
  infixl 5 ◌>>◌
  abbrev pub ◌>>◌ : Result (Unit {0}) → Result B → Result B
  check >> rest = check >>= λ done. rest

-- if test { return err }
abbrev pub reject_if : Bool → Error → Result (Unit {0})
reject_if false e = ok tt
reject_if true e = err e

pub ok-injective {ℓ} : {A : Type ℓ} {a b : A} → ok a ≡ ok b → a ≡ b
ok-injective h = ground arith
