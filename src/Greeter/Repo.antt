-- ===== src/Greeter/Repo.antt =====
-- internal/data/greeter.go and internal/data/rabbitmq_publisher.go
use web_template_go.Prelude.{◌++◌, Option, none, some}
use web_template_go.Text.{Bytes, bytes}
use web_template_go.Errors.{Error, Result, ok, err}
use web_template_go.Greeter.Trace.{Trace, info, write_line}
use web_template_go.Greeter.Usecase.{Greeter, GreeterRepo, GreeterEventPublisher}

-- The generated gRPC client's SayHello: the message of the reply, or an error.
pub record GreeterClient (S : Type 0) : Type 0 where
  pub say_hello : Bytes → Trace S → Result Bytes × Trace S

-- The RabbitMQ publisher as the greeter sees it: exchange, routing key and event.
pub record GreeterCreatedEvent : Type 0 where
  pub kind : Bytes
  pub name : Bytes
  pub message : Bytes
  pub source : Bytes

pub record EventClient (S : Type 0) : Type 0 where
  pub publish : Bytes → Bytes → GreeterCreatedEvent → Trace S → Option Error × Trace S

abbrev pub greeter_created_exchange : Bytes
greeter_created_exchange = bytes "server.greeter.exchange"

abbrev pub greeter_created_routing_key : Bytes
greeter_created_routing_key = bytes "server.greeter.routingkey"

unfoldable pub event_of : Greeter → GreeterCreatedEvent
event_of g = record {
  kind = bytes "greeter.created";
  name = g.name;
  message = g.message;
  source = g.source;
}

unfoldable pub save_remote : Greeter → Result Bytes → Result (Option Greeter)
save_remote g (err e) = err e
save_remote g (ok message) =
    ok (some (record { name = g.name; message = message; source = bytes "remote" }))

module _ {S : Type 0} where
  unfoldable pub save :
      Option (GreeterClient S) → Greeter → Trace S → Result (Option Greeter) × Trace S
  unfolding save_remote
  save none g t =
      (ok (some (record { name = g.name; message = g.message; source = bytes "local" })), t)
  save (some client) g t = let (reply, t') = client.say_hello g.name t in (save_remote g reply, t')

  unfoldable pub new_greeter_repo : Option (GreeterClient S) → GreeterRepo S
  unfolding save
  new_greeter_repo client = record { save = save client }

  unfoldable pub after_publish :
      GreeterCreatedEvent → Option Error → Trace S → Option Error × Trace S
  after_publish evt (some e) t = (some e, t)
  after_publish evt none t = (
    none,
    write_line info
        (bytes "published rabbitmq event type="
          ++ (evt.kind ++ (bytes " name=" ++ (evt.name ++ (bytes " source=" ++ evt.source)))))
        none t,
  )

  unfoldable pub publish_greeter_created :
      EventClient S → Option Greeter → Trace S → Option Error × Trace S
  unfolding event_of after_publish
  publish_greeter_created client none t = (none, t)
  publish_greeter_created client (some g) t =
      let evt = event_of g in
      let (e, t') = client.publish greeter_created_exchange greeter_created_routing_key evt t in
      after_publish evt e t'

  -- noopGreeterPublisher
  unfoldable pub noop_publisher : GreeterEventPublisher S
  noop_publisher = record { publish_greeter_created = λ g t. (none, t) }

  unfoldable pub new_greeter_event_publisher :
      Option (EventClient S) → Trace S → GreeterEventPublisher S × Trace S
  unfolding publish_greeter_created noop_publisher
  new_greeter_event_publisher none t = (
    noop_publisher,
    write_line info (bytes "rabbitmq publisher disabled, skip initialization") none t,
  )
  new_greeter_event_publisher (some client) t =
      (record { publish_greeter_created = publish_greeter_created client }, t)
