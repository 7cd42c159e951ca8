-- ===== src/Messaging/Store.antt =====
-- The map of clients: a lookup behind a store.
use web_template_go.Prelude.{Bool-cases, [], ◌∷◌, false, some, ◌≡◌, inl, inr}
use web_template_go.Text.{Bytes, same, same-eq, same_refl}
use web_template_go.Messaging.{Clients, find_client, put_client}

module _ {B : Type 0} (exchange : Bytes) (c : B) where
  pub find_client-put :
      (clients : Clients B) → find_client exchange (put_client exchange c clients) ≡ some c
  unfolding find_client put_client
  find_client-put [] = rw same_refl
  find_client-put ((key, d) ∷ clients) = elim (Bool-cases (same key exchange)) [
    | inl e ↦ rw (e, same_refl)
    | inr e ↦ rw (e, e, find_client-put clients)
  ]

  pub find_client-put_other :
      (other : Bytes) (clients : Clients B)
      → same exchange other ≡ false
      → find_client other (put_client exchange c clients) ≡ find_client other clients
  unfolding find_client put_client
  find_client-put_other other [] h = rw h
  find_client-put_other other ((key, d) ∷ clients) h = elim (Bool-cases (same key exchange)) [
    | inl e ↦ let k : key ≡ exchange = same-eq key exchange e in rw (e, h, k, h)
    | inr e ↦ rw (e, find_client-put_other other clients h)
  ]
