-- ===== src/Messaging/Balance.antt =====
-- The brokers that a publisher connects are disconnected again. A broker has an identity, a number, and
-- of the outside it is looked at which brokers have an open connection.
use web_template_go.Greeter.Trace.{Trace, write_line}
use web_template_go.Text.{Bytes, same, trim_space}
use web_template_go.Messaging.{
  Brokers, Clients, RabbitMqPublisher, find_client, put_client, after_connect, disconnect_all,
  get_or_create_client, publish, send_to, warn_disconnect, Bool, false, not, true,
}
use web_template_go.Prelude.{
  Bool-cases, Option-cases, ℕ, List, [], ◌∷◌, Option, none, some, ap, ◌∙◌, ◌≡◌, refl, inl, inr,
  arith, ◌||◌, ◌&&◌, ◌==◌, sym,
}
use web_template_go.Messaging.Reuse.{get_or_create_client-none, get_or_create_client-some}
use web_template_go.Errors.{Error, Result, ok, err}

-- The map has a broker with the identity `i`.
unfoldable pub has_client : {B : Type 0} → (B → ℕ) → ℕ → Clients B → Bool
has_client id i [] = false
has_client id i ((key, c) ∷ clients) = (id c == i) || has_client id i clients

-- Connections that were open at the start (`was`), that are (`is`), and that are those of clients
-- (`held`): the clients' connections have been added, and were not open before.
abbrev pub IsGrown : Bool → Bool → Bool → Type 0
IsGrown was is held = (is ≡ (was || held)) × ((was && held) ≡ false)

IsGrown-more :
    (was is held one : Bool)
    → IsGrown was is held
    → (is && one) ≡ false
    → IsGrown was (is || one) (held || one)
IsGrown-more false false false one h k = (refl, refl)
IsGrown-more false true true false h k = (refl, refl)
IsGrown-more true true false false h k = (refl, refl)
IsGrown-more false true true true h k = absurd (ground (arith, k))
IsGrown-more true true false true h k = absurd (ground (arith, k))
IsGrown-more false true false one (h, _) k = absurd (ground (arith, h))
IsGrown-more false false true one (h, _) k = absurd (ground (arith, h))
IsGrown-more true false held one (h, _) k = absurd (ground (arith, h))
IsGrown-more true true true one (_, h) k = absurd (ground (arith, h))

pub IsGrown-closed : (was is held : Bool) → IsGrown was is held → (is && not held) ≡ was
IsGrown-closed false false held h = refl
IsGrown-closed false true true h = refl
IsGrown-closed true true false h = refl
IsGrown-closed false true false (h, _) = absurd (ground (arith, h))
IsGrown-closed true false held (h, _) = absurd (ground (arith, h))
IsGrown-closed true true true (_, h) = absurd (ground (arith, h))

and_not_or : (a b c : Bool) → ((a && not b) && not c) ≡ (a && not (b || c))
and_not_or true true c = refl
and_not_or true false c = refl
and_not_or false b c = refl

or_assoc : (a b c : Bool) → (a || (b || c)) ≡ ((a || b) || c)
or_assoc true b c = refl
or_assoc false b c = refl

pub and_true : (a : Bool) → (a && true) ≡ a
and_true true = refl
and_true false = refl

-- Without clients.
pub new_IsGrown : (was : Bool) → IsGrown was was false
new_IsGrown true = (refl, refl)
new_IsGrown false = (refl, refl)

or_same : (a b : Bool) → (a || b) ≡ (b || a)
or_same true true = refl
or_same true false = refl
or_same false true = refl
or_same false false = refl

-- What connect leaves: the same connections, or one more, that of the new broker.
abbrev pub Connected :
    {B S : Type 0} → (B → ℕ) → (S → ℕ → Bool) → S → Result B × Trace S → ℕ → Type 0
Connected id opens s (err e, u) i = opens u.outside i ≡ opens s i
Connected id opens s (ok c, u) i =
    (opens u.outside i ≡ (opens s i || (id c == i))) × ((opens s i && (id c == i)) ≡ false)

-- The broker library, where `id` is the identity of a broker and `opens` tells which have an open
-- connection. Connect opens that of the new broker or fails, and a message opens and closes none. When
-- Disconnect has returned, be it with an error, the connection of its broker is closed, and no other
-- (Close of the AMQP connection has released all that belongs to it when it returns).
pub record IsBrokers {B M S : Type 0} (brokers : Brokers B M S) (id : B → ℕ) (opens : S → ℕ → Bool)
    : Type 0 where
  pub connects :
      (addr exchange : Bytes) (t : Trace S) (i : ℕ)
      → Connected id opens t.outside (brokers.connect addr exchange t) i
  pub sends :
      (c : B) (key : Bytes) (msg : M) (t : Trace S) (i : ℕ)
      → opens (brokers.send c key msg t).1.outside i ≡ opens t.outside i
  pub disconnects :
      (c : B) (t : Trace S) (i : ℕ)
      → opens (brokers.disconnect c t).1.outside i ≡ (opens t.outside i && not (id c == i))

has_client-put_client :
    {B : Type 0} (id : B → ℕ) (i : ℕ) (exchange : Bytes) (c : B) (clients : Clients B)
    → find_client exchange clients ≡ none
    → has_client id i (put_client exchange c clients) ≡ (has_client id i clients || (id c == i))
unfolding find_client put_client has_client
has_client-put_client id i exchange c [] h = or_same (id c == i) false
has_client-put_client id i exchange c ((key, d) ∷ clients) h =
    elim (Bool-cases (same key exchange)) [
      | inl e ↦ let k : some d ≡ none = rw e at h in ground arith
      | inr e ↦
          rw (e, has_client-put_client id i exchange c clients (rw e at h))
            (or_assoc (id d == i) (has_client id i clients) (id c == i))
    ]

module _ {B M S : Type 0} (brokers : Brokers B M S) where
  -- Calls of Publish, one after the other, whatever each returns.
  unfoldable pub publish_each :
      List (Bytes × Bytes × M) → RabbitMqPublisher B × Trace S → RabbitMqPublisher B × Trace S
  publish_each [] r = r
  publish_each ((exchange, key, msg) ∷ messages) (p, t) =
      let (e, p', t') = publish brokers exchange key msg p t in publish_each messages (p', t')

module _ {B M S : Type 0} (brokers : Brokers B M S) (id : B → ℕ) (opens : S → ℕ → Bool)
    (laws : IsBrokers brokers id opens) (s : S) (i : ℕ) where
  -- Since the outside was `s`, the publisher's clients have been connected, and nothing else.
  abbrev IsLive : RabbitMqPublisher B → Trace S → Type 0
  IsLive p t = IsGrown (opens s i) (opens t.outside i) (has_client id i p.clients)

  after_connect-IsLive :
      (exchange : Bytes) (p : RabbitMqPublisher B) (t : Trace S) (r : Result B × Trace S)
      → find_client exchange p.clients ≡ none
      → Connected id opens t.outside r i
      → IsLive p t
      → let q = after_connect brokers exchange p r.0 r.1 in IsLive q.1 q.2
  unfolding after_connect write_line
  after_connect-IsLive exchange p t (err e, u) h k live = rw k live
  after_connect-IsLive exchange p t (ok c, u) h (k, fresh) live =
      rw (has_client-put_client id i exchange c p.clients h, k)
        (IsGrown-more (opens s i) (opens t.outside i) (has_client id i p.clients) (id c == i) live
          fresh)

  get_or_create_client-IsLive :
      (exchange : Bytes) (p : RabbitMqPublisher B) (t : Trace S)
      → IsLive p t
      → let q = get_or_create_client brokers exchange p t in IsLive q.1 q.2
  get_or_create_client-IsLive exchange p t h =
      elim (Option-cases (find_client exchange p.clients)) [
        | inl e ↦
            rw (get_or_create_client-none brokers exchange p t e)
              (after_connect-IsLive exchange p t _ e (laws.connects p.addr exchange t i) h)
        | inr (c, e) ↦ rw (get_or_create_client-some brokers exchange p c t e) h
      ]

  send_to-IsLive :
      (key : Bytes) (msg : M) (r : Result B × RabbitMqPublisher B × Trace S)
      → IsLive r.1 r.2
      → let q = send_to brokers key msg r in IsLive q.1 q.2
  unfolding send_to
  send_to-IsLive key msg (err e, p, t) h = h
  send_to-IsLive key msg (ok c, p, t) h = rw (laws.sends c key msg t i) h

  publish-IsLive :
      (exchange key : Bytes) (msg : M) (p : RabbitMqPublisher B) (t : Trace S)
      → IsLive p t
      → let q = publish brokers exchange key msg p t in IsLive q.1 q.2
  unfolding publish
  publish-IsLive exchange key msg p t h = elim (Bool-cases (same (trim_space exchange) [])) [
    | inl e ↦ rw e h
    | inr e ↦ elim (Bool-cases (same (trim_space key) [])) [
      | inl f ↦ rw (e, f) h
      | inr f ↦
          rw (e, f)
            (send_to-IsLive _ msg _ (get_or_create_client-IsLive (trim_space exchange) p t h))
    ]
  ]

  pub publish_each-IsLive :
      (messages : List (Bytes × Bytes × M)) (p : RabbitMqPublisher B) (t : Trace S)
      → IsLive p t
      → let r = publish_each brokers messages (p, t) in IsLive r.0 r.1
  unfolding publish_each
  publish_each-IsLive [] p t h = h
  publish_each-IsLive ((exchange, key, msg) ∷ messages) p t h =
      let q = publish brokers exchange key msg p t in
      publish_each-IsLive messages q.1 q.2 (publish-IsLive exchange key msg p t h)

  warn_disconnect-outside :
      (exchange : Bytes) (e : Option Error) (t : Trace S)
      → (warn_disconnect brokers exchange e t).outside ≡ t.outside
  unfolding warn_disconnect write_line
  warn_disconnect-outside exchange none t = refl
  warn_disconnect-outside exchange (some e) t = refl

  pub disconnect_all-opens :
      (clients : Clients B) (t : Trace S)
      → opens (disconnect_all brokers clients t).outside i
        ≡ (opens t.outside i && not (has_client id i clients))
  unfolding disconnect_all has_client
  disconnect_all-opens [] t = sym (and_true (opens t.outside i))
  disconnect_all-opens ((exchange, c) ∷ clients) t =
      disconnect_all-opens clients _
      ∙ rw
          (
            warn_disconnect-outside exchange (brokers.disconnect c t).0 (brokers.disconnect c t).1,
            laws.disconnects c t i,
          )
          (and_not_or (opens t.outside i) (id c == i) (has_client id i clients))

-- If the library keeps `IsBrokers`: a publisher without a client, after any calls of Publish, whichever
-- of them failed, has added to the open connections just those of the clients of its map; and its
-- cleanup over these clients in any order, be they disconnected with errors or without, leaves just
-- those connections open that were before the first call.
pub disconnect_all-publish_each :
    {B M S : Type 0} (brokers : Brokers B M S) (id : B → ℕ) (opens : S → ℕ → Bool)
    (laws : IsBrokers brokers id opens) (messages : List (Bytes × Bytes × M)) (addr : Bytes)
    (order : Clients B) (t : Trace S)
    → let r = publish_each brokers messages (record { clients = []; addr = addr }, t) in
      ((i : ℕ) → has_client id i order ≡ has_client id i r.0.clients)
      → (i : ℕ)
      → (opens r.1.outside i ≡ (opens t.outside i || has_client id i r.0.clients))
        × (opens (disconnect_all brokers order r.1).outside i ≡ opens t.outside i)
unfolding has_client
disconnect_all-publish_each brokers id opens laws messages addr order t h i =
    let r = publish_each brokers messages (record { clients = []; addr = addr }, t) in
    let live =
      publish_each-IsLive brokers id opens laws t.outside i messages
        (record { clients = []; addr = addr }) t (new_IsGrown (opens t.outside i)) in
    (
      live.0,
      disconnect_all-opens brokers id opens laws t.outside i order r.1
          ∙ ap (λ b. opens r.1.outside i && not b) (h i)
          ∙ IsGrown-closed _ _ _ live,
    )
