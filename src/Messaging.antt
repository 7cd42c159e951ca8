-- ===== src/Messaging.antt =====
-- internal/pkg/messagingx/rabbitmq.go: a publisher with one broker per exchange, which it connects at
-- the first use.
pub mod Store
pub mod Reuse
pub mod Alone
pub mod Rounds
pub mod Atomic
pub mod Mqtt
pub mod Balance
pub mod Locking
use web_template_go.Prelude.{
  if◌then◌else◌, ℕ, zero, suc, ◌+◌, ◌-◌, ◌<◌, ◌≤◌, List, [], ◌∷◌, ◌++◌, Bool, true, false, not, ◌↔◌,
  map, Option, none, some, ◌≡◌, ◌≢◌, refl, ◌⊎◌, inl, inr, arith,
}
use web_template_go.Greeter.Trace.{Trace, write_line, info, warn}
use web_template_go.Text.{Bytes, bytes, same, trim_space}
use web_template_go.Errors.{Error, message, Result, ok, err}

abbrev pub Clients : Type 0 → Type 0
Clients B = List (Bytes × B)

module _ {B : Type 0} where
  -- c, ok := clients[exchange]
  unfoldable pub find_client : Bytes → Clients B → Option B
  find_client exchange [] = none
  find_client exchange ((key, c) ∷ clients) =
      if same key exchange then some c else find_client exchange clients

  -- clients[exchange] = c
  unfoldable pub put_client : Bytes → B → Clients B → Clients B
  put_client exchange c [] = (exchange, c) ∷ []
  put_client exchange c ((key, d) ∷ clients) =
      let rest = put_client exchange c clients in
      if same key exchange then (exchange, c) ∷ clients else (key, d) ∷ rest

-- The broker library: a broker for an address and an exchange, that is made, initialised and
-- connected; a message for a routing key; the end of a connection. `B` is a broker, `M` a message
-- and `S` the state of the outside.
pub record Brokers (B M S : Type 0) : Type 0 where
  pub connect : Bytes → Bytes → Trace S → Result B × Trace S
  pub send : B → Bytes → M → Trace S → Option Error × Trace S
  pub disconnect : B → Trace S → Option Error × Trace S

pub record RabbitMqConfig : Type 0 where
  pub enabled : Bool
  pub addr : Bytes
  pub exchange : Bytes
  pub routing_key : Bytes
  pub queue : Bytes

pub record RabbitMqPublisher (B : Type 0) : Type 0 where
  pub clients : Clients B
  pub addr : Bytes

module _ {B M S : Type 0} (brokers : Brokers B M S) where
  -- NewRabbitMQPublisher: no publisher, an error, or a publisher without a broker.
  unfoldable pub new_rabbitmq_publisher :
      RabbitMqConfig → Trace S → Result (Option (RabbitMqPublisher B)) × Trace S
  new_rabbitmq_publisher cfg t =
      let addr = trim_space cfg.addr in
      if not cfg.enabled
      then (
        ok none,
        write_line info (bytes "rabbitmq publisher disabled, skip initialization") none t,
      )
      else if same addr []
      then (err (message (bytes "rabbitmq.addr is empty")), t)
      else (
        ok (some (record { clients = []; addr = addr })),
        write_line info (bytes "rabbitmq publisher ready addr=" ++ addr) none t,
      )

  unfoldable pub warn_disconnect : Bytes → Option Error → Trace S → Trace S
  warn_disconnect exchange none t = t
  warn_disconnect exchange (some e) t =
      write_line warn (bytes "disconnect rabbitmq publisher failed: exchange=" ++ exchange) (some e)
        t

  -- The cleanup that NewRabbitMQPublisher returns, over the clients in the order of the list.
  unfoldable pub disconnect_all : Clients B → Trace S → Trace S
  unfolding warn_disconnect
  disconnect_all [] t = t
  disconnect_all ((exchange, c) ∷ clients) t =
      let (e, t') = brokers.disconnect c t in disconnect_all clients (warn_disconnect exchange e t')

  -- The cleanup that NewRabbitMQPublisher returns. It reads the map that the publisher has when it is
  -- called, after whatever has been published; the map stays as it is.
  unfoldable pub disconnect_live :
      Option (RabbitMqPublisher B) × Trace S → Option (RabbitMqPublisher B) × Trace S
  unfolding disconnect_all
  disconnect_live (none, t) = (none, t)
  disconnect_live (some p, t) = (some p, disconnect_all p.clients t)

  -- NewRabbitMQPublisher with its cleanup, in a process that holds the publisher `held`: the new
  -- publisher is the one that the cleanup finds, as Publish has left it by then.
  unfoldable pub with_disconnect :
      Option (RabbitMqPublisher B)
      → Result (Option (RabbitMqPublisher B)) × Trace S
      → Result (
          Option (RabbitMqPublisher B)
          × (Option (RabbitMqPublisher B) × Trace S → Option (RabbitMqPublisher B) × Trace S))
        × Option (RabbitMqPublisher B)
        × Trace S
  unfolding disconnect_live
  with_disconnect held (err e, t) = (err e, held, t)
  with_disconnect held (ok none, t) = (ok (none, λ u. u), none, t)
  with_disconnect held (ok (some p), t) = (ok (some p, disconnect_live), some p, t)

  -- getOrCreateClient behind buildRabbitMQBroker.
  unfoldable pub after_connect :
      Bytes → RabbitMqPublisher B → Result B → Trace S → Result B × RabbitMqPublisher B × Trace S
  after_connect exchange p (err e) t = (err e, p, t)
  after_connect exchange p (ok c) t = (
    ok c,
    record p { clients = put_client exchange c p.clients },
    write_line info
        (bytes "rabbitmq publisher exchange connected addr="
          ++ (p.addr ++ (bytes " exchange=" ++ exchange)))
        none t,
  )

  -- What getOrCreateClient does under the write lock.
  unfoldable pub create_client :
      Bytes → RabbitMqPublisher B → Trace S → Result B × RabbitMqPublisher B × Trace S
  unfolding after_connect
  create_client exchange p t = elim (find_client exchange p.clients) [
    | some c ↦ (ok c, p, t)
    | none ↦ let (r, t') = brokers.connect p.addr exchange t in after_connect exchange p r t'
  ]

  -- getOrCreateClient with nobody between its two locks.
  unfoldable pub get_or_create_client :
      Bytes → RabbitMqPublisher B → Trace S → Result B × RabbitMqPublisher B × Trace S
  unfolding create_client
  get_or_create_client exchange p t = elim (find_client exchange p.clients) [
    | some c ↦ (ok c, p, t)
    | none ↦ create_client exchange p t
  ]

  unfoldable pub send_to :
      Bytes
      → M
      → Result B × RabbitMqPublisher B × Trace S
      → Option Error × RabbitMqPublisher B × Trace S
  send_to routing_key msg (err e, p, t) = (some e, p, t)
  send_to routing_key msg (ok c, p, t) =
      let (e, t') = brokers.send c routing_key msg t in (e, p, t')

  -- Publish of a publisher that is there; a nil one does nothing, and has no error.
  unfoldable pub publish :
      Bytes
      → Bytes
      → M
      → RabbitMqPublisher B
      → Trace S
      → Option Error × RabbitMqPublisher B × Trace S
  unfolding send_to
  publish exchange routing_key msg p t =
      if same (trim_space exchange) []
      then (some (message (bytes "exchange is empty")), p, t)
      else if same (trim_space routing_key) []
      then (some (message (bytes "routingKey is empty")), p, t)
      else send_to (trim_space routing_key) msg (get_or_create_client (trim_space exchange) p t)
