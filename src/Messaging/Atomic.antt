-- ===== src/Messaging/Atomic.antt =====
-- An abstract registry of brokers, in which a call of getOrCreateClient is one step, and how the two
-- locks of the publisher carry it out.
use web_template_go.Prelude.{
  Bool-cases, ℕ, ◌∷◌, Option, none, some, if◌then◌else◌, sym, ap, ◌==◌, ◌∙◌, ◌≡◌, refl, ◌⊎◌, inl,
  inr, ap₂, subst, ==_iff,
}
use web_template_go.Errors.{Error}
use web_template_go.Text.{Bytes, same, same-eq}
use web_template_go.Messaging.Store.{find_client-put, find_client-put_other}
use web_template_go.Messaging.{Clients, find_client, put_client}
use web_template_go.Messaging.Locking.{
  State, Step, Reach, Call, waiting, missed, got, failed, set_call, read_found, read_missed,
  write_found, write_failed, write_created, start, next,
}

-- A call that has no answer yet, or that has one.
pub data Answer (B : Type 0) : Type 0 where
  pending : Answer B
  broker : Bytes → B → Answer B
  refused : Error → Answer B

-- At most one broker for each exchange, with no trace of how it is stored.
pub record Registry (B : Type 0) : Type 0 where
  pub brokers : Bytes → Option B
  pub answers : ℕ → Answer B

abbrev pub answer : {B : Type 0} → ℕ → Answer B → (ℕ → Answer B) → ℕ → Answer B
answer i a answers j = if i == j then a else answers j

abbrev pub register : {B : Type 0} → Bytes → B → (Bytes → Option B) → Bytes → Option B
register exchange c brokers other = if same exchange other then some c else brokers other

-- A whole call: it gets the broker that is there, or connects one, or fails.
pub data Serve {B : Type 0} (r : Registry B) : Registry B → Type 0 where
  serve_known :
      (i : ℕ) (exchange : Bytes) (c : B)
      → r.answers i ≡ pending
      → r.brokers exchange ≡ some c
      → Serve r (record r { answers = answer i (broker exchange c) r.answers })
  serve_failed :
      (i : ℕ) (exchange : Bytes) (e : Error)
      → r.answers i ≡ pending
      → r.brokers exchange ≡ none
      → Serve r (record r { answers = answer i (refused e) r.answers })
  serve_new :
      (i : ℕ) (exchange : Bytes) (c : B)
      → r.answers i ≡ pending
      → r.brokers exchange ≡ none
      → Serve r (record {
        brokers = register exchange c r.brokers;
        answers = answer i (broker exchange c) r.answers;
      })

pub data Served {B : Type 0} : Registry B → Type 0 where
  nobody : Served (record { brokers = λ exchange. none; answers = λ i. pending })
  one_more : {r s : Registry B} → Served r → Serve r s → Served s

-- Functions that agree everywhere are equal.
pointwise : {X Y : Type 0} {f g : X → Y} → ((x : X) → f x ≡ g x) → f ≡ g
pointwise h = λ i x. h x i

-- A call that has no answer yet still has none.
answer_pending :
    {B : Type 0} (i : ℕ) (answers : ℕ → Answer B)
    → answers i ≡ pending
    → (j : ℕ) → answer i pending answers j ≡ answers j
answer_pending i answers h j = elim (Bool-cases (i == j)) [
  | inl e ↦ rw e (sym h ∙ ap answers ((==_iff i j).0 e))
  | inr e ↦ rw e refl
]

module _ {B : Type 0} where
  -- A caller between the two locks has no answer yet.
  abbrev pub answer_of : Call B → Answer B
  answer_of waiting = pending
  answer_of (missed exchange) = pending
  answer_of (got exchange c) = broker exchange c
  answer_of (failed e) = refused e

  abbrev pub registry_of : State B → Registry B
  registry_of w = record {
    brokers = λ exchange. find_client exchange w.clients;
    answers = λ i. answer_of (w.calls i);
  }

  answer_of-set_call :
      (i : ℕ) (c : Call B) (calls : ℕ → Call B) (j : ℕ)
      → answer_of (set_call i c calls j) ≡ answer i (answer_of c) (λ k. answer_of (calls k)) j
  answer_of-set_call i c calls j = elim (Bool-cases (i == j)) [
    | inl e ↦ rw e refl
    | inr e ↦ rw e refl
  ]

  find_client-register :
      (exchange : Bytes) (c : B) (clients : Clients B) (other : Bytes)
      → find_client other (put_client exchange c clients)
        ≡ register exchange c (λ key. find_client key clients) other
  find_client-register exchange c clients other = elim (Bool-cases (same exchange other)) [
    | inl e ↦ rw e (
        subst (λ x. find_client x (put_client exchange c clients) ≡ some c)
          (same-eq exchange other e) (find_client-put exchange c clients))
    | inr e ↦ rw e (find_client-put_other exchange c other clients e)
  ]

  -- What a step does to the answers alone.
  answered :
      (v : State B) (i : ℕ) (c : Call B)
      → registry_of (record v { calls = set_call i c v.calls })
        ≡ record (registry_of v) { answers = answer i (answer_of c) (λ k. answer_of (v.calls k)) }
  answered v i c =
      ap (λ f. record (registry_of v) { answers = f }) (pointwise (answer_of-set_call i c v.calls))

  created :
      (v : State B) (i : ℕ) (exchange : Bytes) (c : B)
      → registry_of (record {
        clients = put_client exchange c v.clients;
        connected = exchange ∷ v.connected;
        calls = set_call i (got exchange c) v.calls;
      })
        ≡ record {
          brokers = register exchange c (λ key. find_client key v.clients);
          answers = answer i (broker exchange c) (λ k. answer_of (v.calls k));
        }
  created v i exchange c =
      ap₂ (λ f g. record { brokers = f; answers = g })
        (pointwise (find_client-register exchange c v.clients))
        (pointwise (answer_of-set_call i (got exchange c) v.calls))

  Step-Serve :
      {v w : State B}
      → Step v w
      → Serve (registry_of v) (registry_of w) ⊎ (registry_of v ≡ registry_of w)
  Step-Serve {v} (read_found i exchange c was found) = inl (
      subst (Serve (registry_of v)) (sym (answered v i (got exchange c)))
        (serve_known i exchange c (ap answer_of was) found))
  Step-Serve {v} (read_missed i exchange was none_yet) = inr (
      sym (
        answered v i (missed exchange)
        ∙ ap (λ f. record (registry_of v) { answers = f })
            (pointwise (answer_pending i (λ k. answer_of (v.calls k)) (ap answer_of was)))))
  Step-Serve {v} (write_found i exchange c was found) = inl (
      subst (Serve (registry_of v)) (sym (answered v i (got exchange c)))
        (serve_known i exchange c (ap answer_of was) found))
  Step-Serve {v} (write_failed i exchange e was none_yet) = inl (
      subst (Serve (registry_of v)) (sym (answered v i (failed e)))
        (serve_failed i exchange e (ap answer_of was) none_yet))
  Step-Serve {v} (write_created i exchange c was none_yet) = inl (
      subst (Serve (registry_of v)) (sym (created v i exchange c))
        (serve_new i exchange c (ap answer_of was) none_yet))

-- The publisher implements the abstract registry: whatever steps the callers of getOrCreateClient
-- make under the two locks, in any order, their answers and the brokers that are stored are those of
-- whole calls, one after the other; and a caller between its two locks has not been served yet.
pub registry_of-Served : {B : Type 0} (w : State B) → Reach w → Served (registry_of w)
unfolding find_client
registry_of-Served w start = nobody
registry_of-Served w (next {v} r s) = elim (Step-Serve s) [
  | inl h ↦ one_more (registry_of-Served v r) h
  | inr e ↦ subst Served e (registry_of-Served v r)
]
