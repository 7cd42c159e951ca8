-- ===== src/Messaging/Mqtt.antt =====
-- internal/pkg/messagingx/mqtt.go: a publisher with one broker. wireApp does not make one.
use web_template_go.Prelude.{[], ◌++◌, not, Option, none, some, if◌then◌else◌}
use web_template_go.Servers.Queues.{MqttConfig}
use web_template_go.Greeter.Trace.{Trace, warn, info, write_line}
use web_template_go.Errors.{Error, ok, err, message}
use web_template_go.Text.{Bytes, bytes, same, trim_space}
use web_template_go.Databases.{Connection, nothing}

-- The broker library: a new broker for an address, its Init and Connect, a message for a topic, and
-- the end of the connection.
pub record MqttBrokers (B M S : Type 0) : Type 0 where
  pub new_broker : Bytes → B
  pub init : B → Trace S → Option Error × Trace S
  pub connect : B → Trace S → Option Error × Trace S
  pub send : B → Bytes → M → Trace S → Option Error × Trace S
  pub disconnect : B → Trace S → Option Error × Trace S

module _ {B M S : Type 0} (brokers : MqttBrokers B M S) where
  unfoldable pub warn_mqtt : Option Error × Trace S → Trace S
  warn_mqtt (none, t) = t
  warn_mqtt (some e, t) = write_line warn (bytes "disconnect mqtt publisher failed: ") (some e) t

  unfoldable pub disconnect_mqtt : B → Trace S → Trace S
  unfolding warn_mqtt
  disconnect_mqtt b t = warn_mqtt (brokers.disconnect b t)

  unfoldable pub after_mqtt_connect : Bytes → B → Option Error × Trace S → Connection B S
  unfolding disconnect_mqtt
  after_mqtt_connect addr b (some e, t) = (err e, t)
  after_mqtt_connect addr b (none, t) = (
    ok (some b, disconnect_mqtt b),
    write_line info (bytes "mqtt publisher connected addr=" ++ addr) none t,
  )

  unfoldable pub after_mqtt_init : Bytes → B → Option Error × Trace S → Connection B S
  unfolding after_mqtt_connect
  after_mqtt_init addr b (some e, t) = (err e, t)
  after_mqtt_init addr b (none, t) = after_mqtt_connect addr b (brokers.connect b t)

  -- NewMQTTPublisher, where a publisher is its broker.
  unfoldable pub new_mqtt_publisher : MqttConfig → Trace S → Connection B S
  unfolding after_mqtt_init nothing
  new_mqtt_publisher cfg t =
      let addr = trim_space cfg.addr in
      let b = brokers.new_broker addr in
      if not cfg.enabled
      then (
        ok (none, nothing),
        write_line info (bytes "mqtt publisher disabled, skip initialization") none t,
      )
      else if same addr []
      then (err (message (bytes "mqtt.addr is empty")), t)
      else after_mqtt_init addr b (brokers.init b t)

  -- Publish; a nil publisher does nothing.
  unfoldable pub publish_mqtt : Option B → Bytes → M → Trace S → Option Error × Trace S
  publish_mqtt none topic msg t = (none, t)
  publish_mqtt (some b) topic msg t =
      if same (trim_space topic) []
      then (some (message (bytes "topic is empty")), t)
      else brokers.send b (trim_space topic) msg t
