-- ===== src/Greeter/Usecase.antt =====
-- internal/biz/greeter.go
use web_template_go.Prelude.{[], ◌++◌, Option, none, some, if◌then◌else◌}
use web_template_go.Text.{Bytes, bytes, same, trim_space}
use web_template_go.Errors.{Error, status, Result, ok, err}
use web_template_go.Greeter.Trace.{Trace, info, warn, write_line}

abbrev pub err_user_not_found : Error
err_user_not_found = status 404 (bytes "USER_NOT_FOUND") (bytes "user not found")

abbrev pub err_invalid_name : Error
err_invalid_name = status 400 (bytes "INVALID_NAME") (bytes "name is required")

pub record Greeter : Type 0 where
  pub name : Bytes
  pub message : Bytes
  pub source : Bytes

-- The outbound ports; a pointer that may be nil is an Option.
pub record GreeterRepo (S : Type 0) : Type 0 where
  pub save : Greeter → Trace S → Result (Option Greeter) × Trace S

pub record GreeterEventPublisher (S : Type 0) : Type 0 where
  pub publish_greeter_created : Option Greeter → Trace S → Option Error × Trace S

pub record GreeterUsecase (S : Type 0) : Type 0 where
  pub repo : GreeterRepo S
  pub publisher : Option (GreeterEventPublisher S)

module _ {S : Type 0} where
  unfoldable pub new_greeter_usecase :
      GreeterRepo S → Option (GreeterEventPublisher S) → GreeterUsecase S
  new_greeter_usecase repo publisher = record { repo = repo; publisher = publisher }

  -- The event is optional: an error of the publisher is logged and dropped.
  unfoldable pub warn_if : Option Error → Trace S → Trace S
  warn_if none t = t
  warn_if (some e) t = write_line warn (bytes "publish greeter created event failed: ") (some e) t

  unfoldable pub publish_event :
      Option (GreeterEventPublisher S) → Option Greeter → Trace S → Trace S
  unfolding warn_if
  publish_event none saved t = t
  publish_event (some publisher) saved t =
      let (e, t') = publisher.publish_greeter_created saved t in warn_if e t'

  -- What CreateGreeter does with the result of `Save`.
  unfoldable pub after_save :
      Option (GreeterEventPublisher S)
      → Result (Option Greeter)
      → Trace S
      → Result (Option Greeter) × Trace S
  after_save publisher (err e) t = (err e, t)
  after_save publisher (ok saved) t = (ok saved, publish_event publisher saved t)

  unfoldable pub create_greeter :
      GreeterUsecase S → Bytes → Trace S → Result (Option Greeter) × Trace S
  create_greeter uc input t =
      let name = trim_space input in
      let g : Greeter = record { name = name; message = bytes "Hello " ++ name; source = [] } in
      let logged = write_line info (bytes "CreateGreeter: " ++ name) none t in
      let (r, t') = uc.repo.save g logged in
      if same name [] then (err err_invalid_name, t) else after_save uc.publisher r t'
