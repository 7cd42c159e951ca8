-- ===== src/Messaging/Locking.antt =====
-- getOrCreateClient with many callers: the read lock and the write lock make a look and a creation
-- single steps, and any callers may run between the two.
use web_template_go.Prelude.{
  Bool-cases, ℕ, suc, List, [], ◌∷◌, Option, none, some, if◌then◌else◌, sym, ap, ◌==◌, ◌∙◌, ◌≡◌,
  refl, inl, inr, arith, subst, some-injective,
}
use web_template_go.Text.{Bytes, same, same-eq}
use web_template_go.Errors.{Error}
use web_template_go.Messaging.{Clients, find_client, put_client}
use web_template_go.Messaging.Store.{find_client-put, find_client-put_other}

-- A caller that has not looked, that has found nothing under the read lock, that has a broker, or
-- that has an error.
pub data Call (B : Type 0) : Type 0 where
  waiting : Call B
  missed : Bytes → Call B
  got : Bytes → B → Call B
  failed : Error → Call B

-- The map, the exchanges of the brokers that have been connected, and the callers.
pub record State (B : Type 0) : Type 0 where
  pub clients : Clients B
  pub connected : List Bytes
  pub calls : ℕ → Call B

module _ {B : Type 0} where
  abbrev pub set_call : ℕ → Call B → (ℕ → Call B) → ℕ → Call B
  set_call i c calls j = if i == j then c else calls j

  pub data Step (w : State B) : State B → Type 0 where
    read_found :
        (i : ℕ) (exchange : Bytes) (c : B)
        → w.calls i ≡ waiting
        → find_client exchange w.clients ≡ some c
        → Step w (record w { calls = set_call i (got exchange c) w.calls })
    read_missed :
        (i : ℕ) (exchange : Bytes)
        → w.calls i ≡ waiting
        → find_client exchange w.clients ≡ none
        → Step w (record w { calls = set_call i (missed exchange) w.calls })
    write_found :
        (i : ℕ) (exchange : Bytes) (c : B)
        → w.calls i ≡ missed exchange
        → find_client exchange w.clients ≡ some c
        → Step w (record w { calls = set_call i (got exchange c) w.calls })
    write_failed :
        (i : ℕ) (exchange : Bytes) (e : Error)
        → w.calls i ≡ missed exchange
        → find_client exchange w.clients ≡ none
        → Step w (record w { calls = set_call i (failed e) w.calls })
    write_created :
        (i : ℕ) (exchange : Bytes) (c : B)
        → w.calls i ≡ missed exchange
        → find_client exchange w.clients ≡ none
        → Step w (record {
          clients = put_client exchange c w.clients;
          connected = exchange ∷ w.connected;
          calls = set_call i (got exchange c) w.calls;
        })

  pub data Reach : State B → Type 0 where
    start : Reach (record { clients = []; connected = []; calls = λ i. waiting })
    next : {v w : State B} → Reach v → Step v w → Reach w

abbrev pub count : Bytes → List Bytes → ℕ
count exchange [] = 0
count exchange (key ∷ keys) =
    let rest = count exchange keys in if same key exchange then suc rest else rest

abbrev pub count_client : {B : Type 0} → Option B → ℕ
count_client none = 0
count_client (some c) = 1

module _ {B : Type 0} where
  -- Who has a broker has the one in the map.
  abbrev pub Holds : Clients B → Call B → Type 0
  Holds clients (got exchange c) = find_client exchange clients ≡ some c
  Holds clients _ = Unit

  pub record IsShared (w : State B) : Type 0 where
    pub counted :
        (exchange : Bytes)
        → count exchange w.connected ≡ count_client (find_client exchange w.clients)
    pub held : (i : ℕ) → Holds w.clients (w.calls i)

  set_call-Holds :
      (i : ℕ) (c : Call B) (calls : ℕ → Call B) (clients : Clients B)
      → Holds clients c
      → ((j : ℕ) → Holds clients (calls j))
      → (j : ℕ) → Holds clients (set_call i c calls j)
  set_call-Holds i c calls clients hc h j = elim (Bool-cases (i == j)) [
    | inl e ↦ rw e hc
    | inr e ↦ rw e (h j)
  ]

  -- A new client is of an exchange that has none, so it takes nobody's broker away.
  put-Holds :
      (exchange : Bytes) (c : B) (clients : Clients B) (call : Call B)
      → find_client exchange clients ≡ none
      → Holds clients call
      → Holds (put_client exchange c clients) call
  put-Holds exchange c clients waiting none_yet h = tt
  put-Holds exchange c clients (missed other) none_yet h = tt
  put-Holds exchange c clients (failed e) none_yet h = tt
  put-Holds exchange c clients (got other d) none_yet h = elim (Bool-cases (same exchange other)) [
    | inl e ↦
        let k : find_client other clients ≡ none =
          subst (λ x. find_client x clients ≡ none) (same-eq exchange other e) none_yet in
        ground arith
    | inr e ↦ find_client-put_other exchange c other clients e ∙ h
  ]

  put-counted :
      (exchange : Bytes) (c : B) (clients : Clients B) (keys : List Bytes)
      → find_client exchange clients ≡ none
      → ((other : Bytes) → count other keys ≡ count_client (find_client other clients))
      → (other : Bytes)
      → count other (exchange ∷ keys)
        ≡ count_client (find_client other (put_client exchange c clients))
  put-counted exchange c clients keys none_yet h other = elim (Bool-cases (same exchange other)) [
    | inl e ↦
        let k = same-eq exchange other e in
        let none_other : find_client other clients ≡ none =
          subst (λ x. find_client x clients ≡ none) k none_yet in
        let found : find_client other (put_client exchange c clients) ≡ some c =
          subst (λ x. find_client x (put_client exchange c clients) ≡ some c) k
            (find_client-put exchange c clients) in
        rw (e, found) (ap suc (rw none_other at (h other)))
    | inr e ↦ rw (e, find_client-put_other exchange c other clients e) (h other)
  ]

  Step-IsShared : {v w : State B} → Step v w → IsShared v → IsShared w
  Step-IsShared {v} (read_found i exchange c was found) h = record {
    counted = h.counted;
    held = set_call-Holds i (got exchange c) v.calls v.clients found h.held;
  }
  Step-IsShared {v} (read_missed i exchange was none_yet) h = record {
    counted = h.counted;
    held = set_call-Holds i (missed exchange) v.calls v.clients tt h.held;
  }
  Step-IsShared {v} (write_found i exchange c was found) h = record {
    counted = h.counted;
    held = set_call-Holds i (got exchange c) v.calls v.clients found h.held;
  }
  Step-IsShared {v} (write_failed i exchange e was none_yet) h = record {
    counted = h.counted;
    held = set_call-Holds i (failed e) v.calls v.clients tt h.held;
  }
  Step-IsShared {v} (write_created i exchange c was none_yet) h = record {
    counted = put-counted exchange c v.clients v.connected none_yet h.counted;
    held =
        set_call-Holds i (got exchange c) v.calls (put_client exchange c v.clients)
          (find_client-put exchange c v.clients)
          (λ j. put-Holds exchange c v.clients (v.calls j) none_yet (h.held j));
  }

-- However the callers interleave, all who got a broker for an exchange got the same one, and it is
-- the only one that has been connected for that exchange.
pub clients_shared :
    {B : Type 0} (w : State B) (i j : ℕ) (exchange : Bytes) (c d : B)
    → Reach w
    → w.calls i ≡ got exchange c
    → w.calls j ≡ got exchange d
    → (c ≡ d) × (count exchange w.connected ≡ 1)
clients_shared {B} w i j exchange c d r hi hj =
    let s = shared r in
    let fi : find_client exchange w.clients ≡ some c = rw hi at (s.held i) in
    let fj : find_client exchange w.clients ≡ some d = rw hj at (s.held j) in
    (some-injective (sym fi ∙ fj), rw fi at (s.counted exchange))
  where
    shared : {v : State B} → Reach v → IsShared v
    shared start = record { counted = λ exchange. unfold find_client in refl; held = λ i. tt }
    shared (next r s) = Step-IsShared s (shared r)
