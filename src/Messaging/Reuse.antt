-- ===== src/Messaging/Reuse.antt =====
-- One caller after the other: a broker that was connected is used again.
use web_template_go.Messaging.Store.{find_client-put}
use web_template_go.Prelude.{none, some, ◌≡◌, inl, inr, arith, Option-cases, ap, ◌∙◌}
use web_template_go.Greeter.Trace.{Trace}
use web_template_go.Text.{Bytes}
use web_template_go.Errors.{Result, ok, err, ok-injective}
use web_template_go.Messaging.{
  Brokers, RabbitMqPublisher, after_connect, create_client, find_client, get_or_create_client,
}

module _ {B M S : Type 0} (brokers : Brokers B M S) (exchange : Bytes)
    (p : RabbitMqPublisher B) where
  after_connect-found :
      (r : Result B) (c : B) (t : Trace S)
      → (after_connect brokers exchange p r t).0 ≡ ok c
      → find_client exchange (after_connect brokers exchange p r t).1.clients ≡ some c
  unfolding after_connect
  after_connect-found (err e) c t h = ground arith
  after_connect-found (ok d) c t h = ground (arith, find_client-put exchange d p.clients)

  pub get_or_create_client-some :
      (c : B) (t : Trace S)
      → find_client exchange p.clients ≡ some c
      → get_or_create_client brokers exchange p t ≡ (ok c, p, t)
  unfolding get_or_create_client
  get_or_create_client-some c t e = rw (get_or_create_client, e)

  pub get_or_create_client-none :
      (t : Trace S)
      → find_client exchange p.clients ≡ none
      → get_or_create_client brokers exchange p t
        ≡ after_connect brokers exchange p
            (brokers.connect p.addr exchange t).0
            (brokers.connect p.addr exchange t).1
  unfolding get_or_create_client create_client
  get_or_create_client-none t e = rw (get_or_create_client, e) (rw (create_client, e))

  -- A caller who gets a broker finds it in the map.
  get_or_create_client-found :
      (c : B) (t : Trace S)
      → (get_or_create_client brokers exchange p t).0 ≡ ok c
      → find_client exchange (get_or_create_client brokers exchange p t).1.clients ≡ some c
  get_or_create_client-found c t h = elim (Option-cases (find_client exchange p.clients)) [
    | inl e ↦
        let k = get_or_create_client-none t e in
        rw k (
          after_connect-found (brokers.connect p.addr exchange t).0 c
            (brokers.connect p.addr exchange t).1 (rw k at h))
    | inr (d, e) ↦
        let k = get_or_create_client-some d t e in
        let eq : ok d ≡ ok c = rw k at h in rw k (e ∙ ap some (ok-injective eq))
  ]

-- Once getOrCreateClient has returned a broker, it returns the same at every later call for that
-- exchange, and neither connects another nor changes anything.
pub get_or_create_client_again :
    {B M S : Type 0} (brokers : Brokers B M S) (exchange : Bytes) (p : RabbitMqPublisher B) (c : B)
    (t u : Trace S)
    → (get_or_create_client brokers exchange p t).0 ≡ ok c
    → let p' = (get_or_create_client brokers exchange p t).1 in
      get_or_create_client brokers exchange p' u ≡ (ok c, p', u)
get_or_create_client_again brokers exchange p c t u h =
    get_or_create_client-some brokers exchange (get_or_create_client brokers exchange p t).1 c u
      (get_or_create_client-found brokers exchange p c t h)
