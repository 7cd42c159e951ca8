-- ===== src/Servers/Queues.antt =====
-- internal/server/mqtt.go, rabbitmq.go and websocket.go: the servers for messages.
use web_template_go.Prelude.{
  List, [], ◌∷◌, Bool, true, not, Option, none, some, if◌then◌else◌, ◌||◌,
}
use web_template_go.Messaging.{RabbitMqConfig}
use web_template_go.Errors.{Error}
use web_template_go.Greeter.Trace.{Trace, info, error, write_line}
use web_template_go.Text.{Bytes, bytes, same, trim_space}
use web_template_go.Greeter.Service.{
  GreeterService, RabbitMessage, WebsocketServer, on_rabbitmq_message, set_websocket_server,
}

pub record MqttConfig : Type 0 where
  pub enabled : Bool
  pub addr : Bytes
  pub topic : Bytes

-- What the server is made with, and the topic whose messages it takes and drops.
pub record MqttServer : Type 0 where
  pub addresses : List Bytes
  pub codec : Bytes
  pub topic : Bytes

pub record RabbitMqServer : Type 0 where
  pub addresses : List Bytes
  pub exchange : Bytes
  pub durable : Bool
  pub codec : Bytes
  pub routing_key : Bytes
  pub queue : Bytes

pub record WebsocketConfig : Type 0 where
  pub enabled : Bool
  pub addr : Bytes
  pub path : Bytes

unfoldable pub lacks_setting : RabbitMqConfig → Bool
lacks_setting c =
    same (trim_space c.addr) []
    || same (trim_space c.exchange) []
    || same (trim_space c.routing_key) []
    || same (trim_space c.queue) []

unfoldable pub rabbitmq_server : RabbitMqConfig → RabbitMqServer
rabbitmq_server c = record {
  addresses = trim_space c.addr ∷ [];
  exchange = trim_space c.exchange;
  durable = true;
  codec = bytes "json";
  routing_key = trim_space c.routing_key;
  queue = trim_space c.queue;
}

module _ {S : Type 0} where
  unfoldable pub disabled : {A : Type 0} → Bytes → Trace S → Option A × Trace S
  disabled text t = (none, write_line info text none t)

  unfoldable pub new_mqtt_server : Option MqttConfig → Trace S → Option MqttServer × Trace S
  unfolding disabled
  new_mqtt_server none t = disabled (bytes "mqtt server disabled, skip initialization") t
  new_mqtt_server (some c) t =
      let addr = trim_space c.addr in
      let topic = trim_space c.topic in
      if not c.enabled
      then disabled (bytes "mqtt server disabled, skip initialization") t
      else if same addr [] || same topic []
      then (
        none,
        write_line error (bytes "mqtt server config invalid: addr/topic must be set when enabled")
            none t,
      )
      else (some (record { addresses = addr ∷ []; codec = bytes "json"; topic = topic }), t)

  unfoldable pub after_register :
      RabbitMqServer → Option Error × Trace S → Option RabbitMqServer × Trace S
  after_register srv (none, t) = (some srv, t)
  after_register srv (some e, t) =
      (none, write_line error (bytes "register rabbitmq subscriber failed: ") (some e) t)

  -- RegisterSubscriber of the transport library is an argument.
  unfoldable pub new_rabbitmq_server :
      (RabbitMqServer → Trace S → Option Error × Trace S)
      → Option RabbitMqConfig
      → Trace S
      → Option RabbitMqServer × Trace S
  unfolding disabled lacks_setting rabbitmq_server after_register
  new_rabbitmq_server register none t =
      disabled (bytes "rabbitmq server disabled, skip initialization") t
  new_rabbitmq_server register (some c) t =
      if not c.enabled
      then disabled (bytes "rabbitmq server disabled, skip initialization") t
      else if lacks_setting c
      then (
        none,
        write_line error
            (bytes
              "rabbitmq server config invalid: addr/exchange/routing_key/queue must be set when enabled")
            none t,
      )
      else after_register (rabbitmq_server c) (register (rabbitmq_server c) t)

  -- The subscriber: a nil service drops the message.
  unfoldable pub on_subscribed :
      Option (GreeterService S) → Bytes → Bytes → Option RabbitMessage → Trace S → Trace S
  on_subscribed none topic headers msg t = t
  on_subscribed (some greeter) topic headers msg t = on_rabbitmq_message topic headers msg t

  -- NewServer of the websocket library, for an address and a path, is an argument. The service is
  -- shared with the other servers, and is changed when there is a server.
  unfoldable pub new_websocket_server :
      (Bytes → Bytes → WebsocketServer S)
      → Option WebsocketConfig
      → GreeterService S
      → Option (WebsocketServer S) × GreeterService S
  new_websocket_server new_server none svc = (none, svc)
  new_websocket_server new_server (some rt) svc =
      let addr = trim_space rt.addr in
      let path = trim_space rt.path in
      if not rt.enabled
      then (none, svc)
      else if same addr [] || same path []
      then (none, svc)
      else (some (new_server addr path), set_websocket_server (some (new_server addr path)) svc)
