-- ===== src/Greeter/Service.antt =====
-- internal/service/greeter.go, rabbitmq.go and websocket.go
use web_template_go.Prelude.{ℕ, ◌++◌, Bool, Option, none, some, if◌then◌else◌}
use web_template_go.Text.{Bytes, bytes}
use web_template_go.Errors.{Error, Result, ok, err}
use web_template_go.Greeter.Trace.{Trace, info, warn, write_line}
use web_template_go.Greeter.Usecase.{Greeter, GreeterUsecase, create_greeter}

-- What a call of SayHello ends with; the last is the fault of reading through a nil pointer.
pub data Reply : Type 0 where
  hello : Bytes → Reply
  failed : Error → Reply
  nil_dereference : Reply

unfoldable pub reply_of : Result (Option Greeter) → Reply
reply_of (err e) = failed e
reply_of (ok none) = nil_dereference
reply_of (ok (some g)) = hello g.message

-- A server that sends a message to every session.
pub record WebsocketServer (S : Type 0) : Type 0 where
  pub broadcast : ℕ → Bytes → Trace S → Trace S

pub record GreeterService (S : Type 0) : Type 0 where
  pub uc : GreeterUsecase S
  pub ws : Option (WebsocketServer S)

pub record RabbitMessage : Type 0 where
  pub kind : Bytes
  pub payload : Bytes

module _ {S : Type 0} where
  unfoldable pub new_greeter_service : GreeterUsecase S → GreeterService S
  new_greeter_service uc = record { uc = uc; ws = none }

  unfoldable pub say_hello : GreeterService S → Bytes → Trace S → Reply × Trace S
  unfolding reply_of
  say_hello s name t = let (r, t') = create_greeter s.uc name t in (reply_of r, t')

  unfoldable pub set_websocket_server :
      Option (WebsocketServer S) → GreeterService S → GreeterService S
  set_websocket_server ws s = record s { ws = ws }

  unfoldable pub on_websocket_connect : Bytes → Bool → Trace S → Trace S
  on_websocket_connect session_id register t =
      if register
      then write_line info (session_id ++ bytes " connected\n") none t
      else write_line info (session_id ++ bytes " disconnect\n") none t

  unfoldable pub broadcast_to : Option (WebsocketServer S) → Bytes → Trace S → Trace S
  broadcast_to none msg t = t
  broadcast_to (some ws) msg t = ws.broadcast 1 msg t

  -- OnChatMessage, which never returns an error
  unfoldable pub on_chat_message : GreeterService S → Bytes → Trace S → Trace S
  unfolding broadcast_to
  on_chat_message s msg t = broadcast_to s.ws msg t

  -- OnRabbitMQMessage, which never returns an error; `headers` is their print by `%v`.
  unfoldable pub on_rabbitmq_message : Bytes → Bytes → Option RabbitMessage → Trace S → Trace S
  on_rabbitmq_message topic headers none t =
      write_line warn (bytes "rabbitmq message is nil, topic=" ++ topic) none t
  on_rabbitmq_message topic headers (some msg) t =
      write_line info
        (bytes "rabbitmq recv topic="
          ++ (topic
              ++ (bytes " headers="
                  ++ (headers
                      ++ (bytes " type=" ++ (msg.kind ++ (bytes " payload=" ++ msg.payload)))))))
        none t
