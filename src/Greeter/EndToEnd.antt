-- ===== src/Greeter/EndToEnd.antt =====
-- SayHello as the program puts it together.
use web_template_go.Prelude.{List, [], ◌∷◌, ◌++◌, false, Option, none, some, ◌≡◌, ◌≢◌, refl, arith}
use web_template_go.Text.{Bytes, bytes, same, same_iff, trim_space}
use web_template_go.Errors.{Error, Result, ok, err}
use web_template_go.Greeter.Trace.{Trace, info, write_line}
use web_template_go.Greeter.Usecase.{
  Greeter, GreeterEventPublisher, new_greeter_usecase, after_save, publish_event, create_greeter,
  err_invalid_name,
}
use web_template_go.Greeter.Repo.{
  GreeterClient, EventClient, GreeterCreatedEvent, save_remote, new_greeter_repo,
  new_greeter_event_publisher,
}
use web_template_go.Greeter.Service.{Reply, hello, failed, reply_of, new_greeter_service, say_hello}

module _ {S : Type 0} (client : Option (GreeterClient S))
    (publisher : Option (GreeterEventPublisher S)) (input : Bytes) (t : Trace S) where
  -- A name of white space alone is refused before anything is saved, published or logged.
  pub say_hello_blank :
      trim_space input ≡ []
      → say_hello
          (new_greeter_service (new_greeter_usecase (new_greeter_repo client) publisher))
          input
          t
        ≡ (failed err_invalid_name, t)
  unfolding say_hello new_greeter_service new_greeter_usecase create_greeter same
  say_hello_blank h = rw h

module _ {S : Type 0} (publisher : Option (GreeterEventPublisher S)) (input : Bytes)
    (t : Trace S) where
  -- With no remote client and a name that is not blank, the greeting is made here, from the trimmed
  -- name, whatever becomes of the event.
  pub say_hello_local :
      trim_space input ≢ []
      → (say_hello
          (new_greeter_service (new_greeter_usecase (new_greeter_repo none) publisher))
          input
          t).0
        ≡ hello (bytes "Hello " ++ trim_space input)
  unfolding say_hello new_greeter_service new_greeter_usecase new_greeter_repo create_greeter
      after_save
  say_hello_local h =
      let e : same (trim_space input) [] ≡ false = ground (arith, same_iff (trim_space input) []) in
      rw e

-- What a remote result answers.
abbrev pub remote_reply : Result Bytes → Reply
remote_reply (ok message) = hello message
remote_reply (err e) = failed e

module _ {S : Type 0} (client : GreeterClient S) (publisher : Option (GreeterEventPublisher S))
    (input : Bytes) (t : Trace S) where
  after_remote :
      (g : Greeter) (r : Result Bytes) (u : Trace S)
      → reply_of (after_save publisher (save_remote g r) u).0 ≡ remote_reply r
  unfolding after_save save_remote reply_of
  after_remote g (ok message) u = refl
  after_remote g (err e) u = refl

  -- With a remote client and a name that is not blank, the reply is what the remote answers to the
  -- trimmed name, its error included; one line has been logged when it is asked.
  pub say_hello_remote :
      trim_space input ≢ []
      → (say_hello
          (new_greeter_service (new_greeter_usecase (new_greeter_repo (some client)) publisher))
          input
          t).0
        ≡ remote_reply
            (client.say_hello
              (trim_space input)
              (write_line info (bytes "CreateGreeter: " ++ trim_space input) none t)).0
  unfolding say_hello new_greeter_service new_greeter_usecase new_greeter_repo create_greeter
  say_hello_remote h =
      let e : same (trim_space input) [] ≡ false = ground (arith, same_iff (trim_space input) []) in
      rw e (
        after_remote
          (record {
            name = trim_space input;
            message = bytes "Hello " ++ trim_space input;
            source = [];
          })
          _ _)

-- A broker that keeps what is published, and that answers `outcome`.
abbrev pub Sent : Type 0
Sent = List (Bytes × Bytes × GreeterCreatedEvent)

abbrev pub recording : Option Error → EventClient Sent
recording outcome = record {
  publish = λ exchange key event t.
      (outcome, record t { outside = t.outside ++ (exchange, key, event) ∷ [] });
}

-- With the event publisher of the program and no remote client, the greeting of a name that is not
-- blank is published once, at the fixed exchange and key, as an event with the trimmed name, the
-- greeting and the source "local"; the reply is the same whether or not the broker takes it.
pub say_hello_published :
    (outcome : Option Error) (input : Bytes) (t : Trace Sent)
    → trim_space input ≢ []
    → let p = (new_greeter_event_publisher (some (recording outcome)) t).0 in
      let r =
        say_hello
          (new_greeter_service (new_greeter_usecase (new_greeter_repo none) (some p)))
          input
          t in
      let event : GreeterCreatedEvent = record {
        kind = bytes "greeter.created";
        name = trim_space input;
        message = bytes "Hello " ++ trim_space input;
        source = bytes "local";
      } in
      (r.0 ≡ hello (bytes "Hello " ++ trim_space input))
      × (r.1.outside
          ≡ t.outside
            ++ (bytes "server.greeter.exchange", bytes "server.greeter.routingkey", event) ∷ [])
unfolding say_hello new_greeter_service new_greeter_usecase new_greeter_repo create_greeter
    after_save publish_event new_greeter_event_publisher write_line
say_hello_published none input t h =
    let e : same (trim_space input) [] ≡ false = ground (arith, same_iff (trim_space input) []) in
    (rw e, rw e)
say_hello_published (some x) input t h =
    let e : same (trim_space input) [] ≡ false = ground (arith, same_iff (trim_space input) []) in
    (rw e, rw e)
