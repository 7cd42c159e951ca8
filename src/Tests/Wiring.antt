-- ===== src/Tests/Wiring.antt =====
-- wireApp where the registrar is off, the clients open, and MongoDB fails.
use web_template_go.Errors.{Error, ok, err, message}
use web_template_go.Prelude.{drop, ℕ, List, [], ◌∷◌, ◌≡◌, refl}
use web_template_go.Text.{bytes}
use web_template_go.Wire.{Provider, Providers, or_undo, wire_app}

-- The outside is the stack of what is open.
abbrev opens : ℕ → Provider (List ℕ) ℕ
opens n s = (ok (n, λ u. drop 1 u), n ∷ s)

abbrev is_off : Provider (List ℕ) ℕ
is_off s = (ok (0, λ u. u), s)

abbrev no_mongo : Error
no_mongo = message (bytes "mongodb ping failed")

abbrev fails : Provider (List ℕ) ℕ
fails s = (err no_mongo, s)

abbrev providers : Providers (List ℕ) ℕ ℕ ℕ ℕ ℕ ℕ ℕ ℕ ℕ
providers = record {
  new_kubernetes_registrar = is_off;
  new_greeter_client = opens 2;
  new_rabbitmq_publisher = opens 3;
  new_greeter_event_publisher = λ r. is_off;
  new_grpc_server = λ c e s. (0, s);
  new_postgres_db = opens 5;
  new_redis_client = opens 6;
  new_mongo_client = fails;
  assemble = λ a g b c d s. (d, s);
}

failed_run : wire_app providers (9 ∷ []) ≡ (err no_mongo, 9 ∷ [])
unfolding wire_app or_undo
failed_run = refl
