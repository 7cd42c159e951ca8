-- ===== src/Messaging/Alone.antt =====
-- getOrCreateClient with nobody between its two locks, as a run of the callers.
use web_template_go.Errors.{Result, ok, err}
use web_template_go.Prelude.{
  Option-cases, ℕ, suc, ◌<◌, true, none, some, ap, ◌==◌, ◌≡◌, refl, inl, inr, arith, ==_iff,
}
use web_template_go.Greeter.Trace.{Trace}
use web_template_go.Messaging.Reuse.{get_or_create_client-none, get_or_create_client-some}
use web_template_go.Text.{Bytes, same}
use web_template_go.Messaging.Rounds.{Run, no_step, one_step}
use web_template_go.Messaging.{
  Brokers, Clients, RabbitMqPublisher, find_client, put_client, after_connect, get_or_create_client,
}
use web_template_go.Messaging.Locking.{
  State, Call, got, failed, set_call, waiting, missed, read_found, read_missed, write_failed,
  write_created,
}

-- The answer that a caller has, by what getOrCreateClient returns.
abbrev pub call_of : {B : Type 0} → Bytes → Result B → Call B
call_of exchange (ok c) = got exchange c
call_of exchange (err e) = failed e

below : (i : ℕ) → i < suc i
below i = omega arith

module _ {B : Type 0} where
  set_call_self : (i : ℕ) (c : Call B) (calls : ℕ → Call B) → set_call i c calls i ≡ c
  set_call_self i c calls = let e : (i == i) ≡ true = (==_iff i i).1 refl in rw e refl

module _ {B M S : Type 0} (brokers : Brokers B M S) (exchange : Bytes) (w : State B) (i : ℕ)
    (p : RabbitMqPublisher B) where
  -- A run of the caller `i` alone, which ends with that answer and those clients.
  abbrev pub RunsAlone : Result B → Clients B → Type 0
  RunsAlone r clients =
      (k : ℕ) × (u : State B) × Run (suc i) w k u
      × (u.calls i ≡ call_of exchange r)
      × (u.clients ≡ clients)

  after_connect-RunsAlone :
      (r : Result B) (t : Trace S)
      → w.calls i ≡ waiting
      → w.clients ≡ p.clients
      → find_client exchange p.clients ≡ none
      → let q = after_connect brokers exchange p r t in RunsAlone q.0 q.1.clients
  unfolding after_connect
  after_connect-RunsAlone (err e) t was same none_yet =
      let missing : find_client exchange w.clients ≡ none = rw same none_yet in
      let looked = one_step no_step (read_missed i exchange was missing) (below i) in
      (
        2,
        _,
        one_step looked
            (write_failed i exchange e (set_call_self i (missed exchange) w.calls) missing)
            (below i),
        set_call_self i (failed e) (set_call i (missed exchange) w.calls),
        same,
      )
  after_connect-RunsAlone (ok c) t was same none_yet =
      let missing : find_client exchange w.clients ≡ none = rw same none_yet in
      let looked = one_step no_step (read_missed i exchange was missing) (below i) in
      (
        2,
        _,
        one_step looked
            (write_created i exchange c (set_call_self i (missed exchange) w.calls) missing)
            (below i),
        set_call_self i (got exchange c) (set_call i (missed exchange) w.calls),
        ap (put_client exchange c) same,
      )

  -- getOrCreateClient, called where nobody else runs, is a run of one caller under the two locks,
  -- from any state whose map is the publisher's: it returns the answer that this caller has at the
  -- end, and leaves the map that is left there.
  pub get_or_create_client-RunsAlone :
      (t : Trace S)
      → w.calls i ≡ waiting
      → w.clients ≡ p.clients
      → let q = get_or_create_client brokers exchange p t in RunsAlone q.0 q.1.clients
  get_or_create_client-RunsAlone t was same = elim (Option-cases (find_client exchange p.clients)) [
    | inl e ↦ rw (get_or_create_client-none brokers exchange p t e) (
        after_connect-RunsAlone (brokers.connect p.addr exchange t).0
          (brokers.connect p.addr exchange t).1 was same e)
    | inr (c, e) ↦
        let found : find_client exchange w.clients ≡ some c = rw same e in
        rw (get_or_create_client-some brokers exchange p c t e) (
          1,
          _,
          one_step no_step (read_found i exchange c was found) (below i),
          set_call_self i (got exchange c) w.calls,
          same,
        )
  ]
