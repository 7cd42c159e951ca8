-- ===== src/Tests/Greeting.antt =====
-- SayHello with a blank name, without a remote client, with one that fails, and with a broker.
use web_template_go.Prelude.{List, [], ◌∷◌, none, some, ◌≡◌, refl, arith}
use web_template_go.Greeter.Trace.{Trace}
use web_template_go.Errors.{Error, err, status}
use web_template_go.Greeter.Repo.{
  GreeterClient, GreeterCreatedEvent, new_greeter_event_publisher, new_greeter_repo,
}
use web_template_go.Greeter.Usecase.{err_invalid_name, new_greeter_usecase}
use web_template_go.Text.{
  Bytes, ascii_space, bytes, skip_space, space_width, space_width_back, trim_space,
}
use web_template_go.Greeter.EndToEnd.{
  Sent, recording, say_hello_blank, say_hello_published, say_hello_remote,
}
use web_template_go.Greeter.Service.{Reply, new_greeter_service, say_hello, failed, hello}

abbrev quiet_trace : Trace (List (Bytes × Bytes × GreeterCreatedEvent))
quiet_trace = record { outside = []; log = [] }

abbrev unavailable : Error
unavailable = status 503 (bytes "UNAVAILABLE") (bytes "no upstream")

-- A remote greeter that answers nobody.
abbrev down_client : GreeterClient Sent
down_client = record { say_hello = λ name t. (err unavailable, t) }

say_hello_blank_example :
    say_hello
      (new_greeter_service (new_greeter_usecase (new_greeter_repo (some down_client)) none))
      (bytes " \t")
      quiet_trace
    ≡ (failed err_invalid_name, quiet_trace)
unfolding bytes trim_space ascii_space skip_space space_width space_width_back
say_hello_blank_example = say_hello_blank (some down_client) none (bytes " \t") quiet_trace refl

say_hello_remote_example :
    (say_hello
      (new_greeter_service (new_greeter_usecase (new_greeter_repo (some down_client)) none))
      (bytes " ann ")
      quiet_trace).0
    ≡ failed unavailable
unfolding bytes trim_space ascii_space skip_space space_width space_width_back
say_hello_remote_example =
    say_hello_remote down_client none (bytes " ann ") quiet_trace (ground arith)

abbrev publishing : Reply × Trace Sent
publishing =
    say_hello
      (new_greeter_service (
        new_greeter_usecase (new_greeter_repo none)
          (some (new_greeter_event_publisher (some (recording none)) quiet_trace).0)))
      (bytes " ann ") quiet_trace

say_hello_published_example :
    (publishing.0 ≡ hello (bytes "Hello ann"))
    × (publishing.1.outside
        ≡ (
          bytes "server.greeter.exchange",
          bytes "server.greeter.routingkey",
          record {
            kind = bytes "greeter.created";
            name = bytes "ann";
            message = bytes "Hello ann";
            source = bytes "local";
          },
        )
          ∷ [])
unfolding bytes trim_space ascii_space skip_space space_width space_width_back
say_hello_published_example = say_hello_published none (bytes " ann ") quiet_trace (ground arith)
