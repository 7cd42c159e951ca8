-- ===== src/Wire/Balance.antt =====
-- What wireApp opens is closed again, on every path and in reverse order.
use web_template_go.Prelude.{◌≡◌}
use web_template_go.Errors.{Result, ok, err}
use web_template_go.Wire.{Provider, Providers, or_undo, wire_app}

-- The rule for a function that is called in the state `s`: an error leaves a state that is `Back` at
-- `s`; and else it returns a cleanup that leads there from every state `Near` the one at its end.
abbrev pub Undoes :
    {S C : Type 0} → (S → S → Type 0) → (S → S → Type 0) → S → Result (C × (S → S)) × S → Type 0
Undoes Near Back s (err e, u) = Back s u
Undoes {S} Near Back s (ok (c, cleanup), u) = (v : S) → Near u v → Back s (cleanup v)

-- Only what `see` shows counts.
abbrev pub Same : {S V : Type 0} → (S → V) → S → S → Type 0
Same see u v = see v ≡ see u

-- The rule where only what `see` shows counts: an error leaves all as before, and the cleanup leads
-- from the end back to before.
abbrev pub IsUndoable : {S V C : Type 0} → (S → V) → S → Result (C × (S → S)) × S → Type 0
IsUndoable see = Undoes (Same see) (Same see)

-- A state of a result that is no error is in `Inv`.
abbrev pub StaysIn : {S C : Type 0} → (S → Type 0) → Result C × S → Type 0
StaysIn Inv (err e, u) = Unit {0}
StaysIn Inv (ok c, u) = Inv u

-- A provider that keeps the rule, and `Inv`, in every state in `Inv`.
abbrev pub IsProvider :
    {S A : Type 0} → (S → S → Type 0) → (S → S → Type 0) → (S → Type 0) → Provider S A → Type 0
IsProvider {S} Near Back Inv p = (s : S) → Inv s → Undoes Near Back s (p s) × StaysIn Inv (p s)

-- A constructor without a cleanup: what is near its end is near its start.
abbrev pub IsQuiet : {S A : Type 0} → (S → S → Type 0) → (S → Type 0) → (S → A × S) → Type 0
IsQuiet {S} Near Inv f = (s : S) → Inv s → ((v : S) → Near (f s).1 v → Near s v) × Inv (f s).1

-- If the rule holds for a provider and for what follows it, and `undo` leads from where the provider
-- is called back to the start, then it holds for the two together.
or_undo-Undoes :
    {S A C : Type 0} (Low Back Near High : S → S → Type 0) (Inv : S → Type 0) (start s : S)
    (undo : S → S) (rest : A → (S → S) → S → Result (C × (S → S)) × S)
    (r : Result (A × (S → S)) × S)
    → ((v : S) → Back s v → Low start (undo v))
    → Undoes Near Back s r × StaysIn Inv r
    → ((a : A) (cleanup : S → S) (u : S)
        → ((v : S) → Near u v → Low start (undo (cleanup v)))
        → Inv u
        → Undoes High Low start (rest a cleanup u) × StaysIn Inv (rest a cleanup u))
    → Undoes High Low start (or_undo undo r rest) × StaysIn Inv (or_undo undo r rest)
unfolding or_undo
or_undo-Undoes Low Back Near High Inv start s undo rest (err e, u) back h k = (back u h.0, tt)
or_undo-Undoes Low Back Near High Inv start s undo rest (ok (a, cleanup), u) back h k =
    k a cleanup u (λ v p. back (cleanup v) (h.0 v p)) h.1

-- The seven providers with a cleanup, and the two functions without. `Low` is the relation up to the
-- provider of RabbitMQ, and `High` the one behind it.
pub record AreProviders
    {S Registrar Client RabbitMq Publisher Grpc Postgres Redis Mongo App : Type 0}
    (Low High : S → S → Type 0) (Inv : S → Type 0)
    (p : Providers S Registrar Client RabbitMq Publisher Grpc Postgres Redis Mongo App)
    : Type 0 where
  pub registrar : IsProvider Low Low Inv p.new_kubernetes_registrar
  pub client : IsProvider Low Low Inv p.new_greeter_client
  pub rabbitmq : IsProvider High Low Inv p.new_rabbitmq_publisher
  pub publisher : (r : RabbitMq) → IsProvider High High Inv (p.new_greeter_event_publisher r)
  pub grpc : (c : Client) (e : Publisher) → IsQuiet High Inv (p.new_grpc_server c e)
  pub postgres : IsProvider High High Inv p.new_postgres_db
  pub redis : IsProvider High High Inv p.new_redis_client
  pub mongo : IsProvider High High Inv p.new_mongo_client
  pub app :
      (a : Registrar) (g : Grpc) (b : Postgres) (c : Redis) (d : Mongo)
      → IsQuiet High Inv (p.assemble a g b c d)

-- For states that stay in `Inv`: if each provider either fails and leads back to before, or returns a
-- cleanup that does, and the constructors without a cleanup keep what is near, then so does wireApp.
-- An error at any provider has closed all that was opened before it, and the cleanup that wireApp
-- returns closes all seven.
pub wire_app-Undoes :
    {S Registrar Client RabbitMq Publisher Grpc Postgres Redis Mongo App : Type 0}
    (Low High : S → S → Type 0) (Inv : S → Type 0)
    (p : Providers S Registrar Client RabbitMq Publisher Grpc Postgres Redis Mongo App) (s : S)
    → AreProviders Low High Inv p
    → Inv s
    → Undoes High Low s (wire_app p s) × StaysIn Inv (wire_app p s)
unfolding wire_app
wire_app-Undoes Low High Inv p s h i =
    or_undo-Undoes Low Low Low High Inv s s _ _ _ (λ v q. q) (h.registrar s i)
      λ a1 c1 s1 k1 i1.
        or_undo-Undoes Low Low Low High Inv s s1 _ _ _ k1 (h.client s1 i1) λ a2 c2 s2 k2 i2.
          or_undo-Undoes Low Low High High Inv s s2 _ _ _ k2 (h.rabbitmq s2 i2) λ a3 c3 s3 k3 i3.
            or_undo-Undoes Low High High High Inv s s3 _ _ _ k3 (h.publisher a3 s3 i3)
              λ a4 c4 s4 k4 i4.
                let (same, j4) = h.grpc a2 a4 s4 i4 in
                or_undo-Undoes Low High High High Inv s (p.new_grpc_server a2 a4 s4).1 _ _ _
                  (λ v q. k4 v (same v q)) (h.postgres _ j4)
                  λ a5 c5 s5 k5 i5.
                    or_undo-Undoes Low High High High Inv s s5 _ _ _ k5 (h.redis s5 i5)
                      λ a6 c6 s6 k6 i6.
                        or_undo-Undoes Low High High High Inv s s6 _ _ _ k6 (h.mongo s6 i6)
                          λ a7 c7 s7 k7 i7.
                            let (still, j7) =
                              h.app a1 (p.new_grpc_server a2 a4 s4).0 a5 a6 a7 s7 i7 in
                            (λ v q. k7 v (still v q), j7)
