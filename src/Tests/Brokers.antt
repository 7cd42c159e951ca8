-- ===== src/Tests/Brokers.antt =====
-- A publisher with brokers that are numbers, and two callers that both miss the same exchange.
use web_template_go.Messaging.Alone.{RunsAlone, get_or_create_client-RunsAlone}
use web_template_go.Messaging.Atomic.{Served, registry_of, registry_of-Served}
use web_template_go.Errors.{ok}
use web_template_go.Greeter.Trace.{Trace}
use web_template_go.Prelude.{length, ℕ, [], ◌∷◌, none, ◌≡◌, refl}
use web_template_go.Text.{Bytes, bytes, same}
use web_template_go.Messaging.Locking.{
  Reach, clients_shared, count, State, set_call, waiting, missed, got, read_missed, write_created,
  write_found, next, start,
}
use web_template_go.Messaging.{
  Brokers, RabbitMqPublisher, get_or_create_client, put_client, find_client,
}

-- Every connection succeeds, with a broker that has the length of the log for its number.
abbrev numbered : Brokers ℕ Bytes Unit
numbered = record {
  connect = λ addr exchange t. (ok (length t.log), t);
  send = λ c key msg t. (none, t);
  disconnect = λ c t. (none, t);
}

abbrev empty_publisher : RabbitMqPublisher ℕ
empty_publisher = record { clients = []; addr = bytes "amqp://localhost" }

abbrev quiet : Trace Unit
quiet = record { outside = tt; log = [] }

abbrev orders : Bytes
orders = bytes "orders"

abbrev nobody : State ℕ
nobody = record { clients = []; connected = []; calls = λ i. waiting }

abbrev one_missed : State ℕ
one_missed = record nobody { calls = set_call 1 (missed orders) nobody.calls }

abbrev both_missed : State ℕ
both_missed = record one_missed { calls = set_call 2 (missed orders) one_missed.calls }

abbrev created : State ℕ
created = record {
  clients = put_client orders 7 both_missed.clients;
  connected = orders ∷ both_missed.connected;
  calls = set_call 2 (got orders 7) both_missed.calls;
}

abbrev both_got : State ℕ
both_got = record created { calls = set_call 1 (got orders 7) created.calls }

two_callers : Reach both_got
unfolding find_client put_client bytes same
two_callers =
    next
      (next (next (next start (read_missed 1 orders refl refl)) (read_missed 2 orders refl refl))
        (write_created 2 orders 7 refl refl))
      (write_found 1 orders 7 refl refl)

clients_shared_example : (◌≡◌ {A = ℕ} 7 7) × (count orders both_got.connected ≡ 1)
clients_shared_example = clients_shared both_got 1 2 orders 7 7 two_callers refl refl

registry_of-Served_example : Served (registry_of both_got)
registry_of-Served_example = registry_of-Served both_got two_callers

get_or_create_client-RunsAlone_example :
    let q = get_or_create_client numbered orders empty_publisher quiet in
    RunsAlone numbered orders nobody 3 empty_publisher q.0 q.1.clients
get_or_create_client-RunsAlone_example =
    get_or_create_client-RunsAlone numbered orders nobody 3 empty_publisher quiet refl refl
