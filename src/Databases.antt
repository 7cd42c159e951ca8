-- ===== src/Databases.antt =====
-- internal/pkg/dbx: the clients of PostgreSQL, Redis and MongoDB. This file has what the three
-- constructors share: the end of each, from the ping on, and the defaults of numbers.
pub mod Postgres
pub mod Redis
pub mod Mongo
pub mod Balance
use web_template_go.Prelude.{ℕ, Bool, true, false, Option, none, some, if◌then◌else◌, ◌*◌, ltb}
use web_template_go.Text.{Bytes, bytes}
use web_template_go.Errors.{Error, Result, ok, err}
use web_template_go.Greeter.Trace.{Trace, info, error, write_line}

-- An int32, or a time.Duration in nanoseconds: `negsuc n` is -(n + 1).
pub data ℤ : Type 0 where
  pos negsuc : ℕ → ℤ

-- n > 0
unfoldable pub is_positive : ℤ → Bool
is_positive (pos n) = ltb 0 n
is_positive (negsuc n) = false

-- The value of a setting, or its default: `x := fallback; if v > 0 { x = v }`.
unfoldable pub or_default : ℤ → ℤ → ℤ
or_default fallback v = if is_positive v then v else fallback

abbrev pub seconds : ℕ → ℤ
seconds n = pos (n * 1000000000)

-- What a constructor returns: a client that may be nil, and its cleanup.
abbrev pub Connection : Type 0 → Type 0 → Type 0
Connection C S = Result (Option C × (Trace S → Trace S)) × Trace S

module _ {S : Type 0} where
  -- func() {}
  unfoldable pub nothing : Trace S → Trace S
  nothing t = t

  unfoldable pub log_close : Bytes → Option Error × Trace S → Trace S
  log_close failure (none, t) = t
  log_close failure (some e, t) = write_line error failure (some e) t

module _ {C S : Type 0} where
  -- The cleanup of a client: Close, or Disconnect.
  unfoldable pub close_client :
      (C → Trace S → Option Error × Trace S) → Bytes → C → Trace S → Trace S
  unfolding log_close
  close_client close failure c t = log_close failure (close c t)

  -- Behind the ping: a client that does not answer is closed.
  unfoldable pub after_ping :
      (C → Trace S → Option Error × Trace S)
      → Bytes
      → Bytes
      → C
      → Option Error × Trace S
      → Connection C S
  after_ping close connected failure c (some e, t) = (err e, (close c t).1)
  after_ping close connected failure c (none, t) =
      (ok (some c, close_client close failure c), write_line info connected none t)

  -- Behind the call that opens the client.
  unfoldable pub after_open :
      (C → Trace S → Option Error × Trace S)
      → (C → Trace S → Option Error × Trace S)
      → Bytes
      → Bytes
      → Result C × Trace S
      → Connection C S
  unfolding after_ping
  after_open ping close connected failure (err e, t) = (err e, t)
  after_open ping close connected failure (ok c, t) =
      after_ping close connected failure c (ping c t)
