-- ===== src/Greeter/Trace.antt =====
-- The state of the outside and the lines that have been logged.
use web_template_go.Prelude.{List, [], ◌∷◌, ◌++◌, Option}
use web_template_go.Text.{Bytes}
use web_template_go.Errors.{Error}

pub data Level : Type 0 where
  debug info warn error fatal : Level

-- A line: its text, and the error that it shows.
pub record Line : Type 0 where
  pub level : Level
  pub text : Bytes
  pub cause : Option Error

pub record Trace (S : Type 0) : Type 0 where
  pub outside : S
  pub log : List Line

module _ {S : Type 0} where
  unfoldable pub write_line : Level → Bytes → Option Error → Trace S → Trace S
  write_line level text cause t = record t {
    log = t.log ++ (record { level = level; text = text; cause = cause }) ∷ [];
  }
