-- ===== src/Greeter/Laws.antt =====
-- What CreateGreeter does, whatever the repository and the publisher are.
use web_template_go.Prelude.{[], Option, ◌≡◌, refl, Bool-cases, inl, inr}
use web_template_go.Text.{Bytes, same, trim_space}
use web_template_go.Errors.{Result, ok, err}
use web_template_go.Greeter.Trace.{Trace}
use web_template_go.Greeter.Usecase.{
  Greeter, GreeterRepo, GreeterEventPublisher, new_greeter_usecase, after_save, create_greeter,
}

module _ {S : Type 0} (repo : GreeterRepo S) (input : Bytes) (t : Trace S) where
  after_save-result :
      (p q : Option (GreeterEventPublisher S)) (r : Result (Option Greeter)) (u : Trace S)
      → (after_save p r u).0 ≡ (after_save q r u).0
  unfolding after_save
  after_save-result p q (ok saved) u = refl
  after_save-result p q (err e) u = refl

  -- No publisher, whether it fails or not, changes what CreateGreeter returns.
  pub create_greeter-publisher :
      (p q : Option (GreeterEventPublisher S))
      → (create_greeter (new_greeter_usecase repo p) input t).0
        ≡ (create_greeter (new_greeter_usecase repo q) input t).0
  unfolding create_greeter new_greeter_usecase
  create_greeter-publisher p q = elim (Bool-cases (same (trim_space input) [])) [
    | inl e ↦ rw e
    | inr e ↦ rw e (after_save-result p q _ _)
  ]
