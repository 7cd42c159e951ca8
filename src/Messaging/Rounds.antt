-- ===== src/Messaging/Rounds.antt =====
-- How many steps the callers of getOrCreateClient take under the two locks.
use web_template_go.Messaging.{find_client}
use web_template_go.Errors.{message}
use web_template_go.Prelude.{
  Bool-cases, ℕ, zero, suc, ◌+◌, ◌<◌, ◌≤◌, [], false, Option-cases, ap, ◌==◌, ◌≡◌, refl, ◌⊎◌, inl,
  inr, arith, ==_iff, ◌*◌,
}
use web_template_go.Messaging.Locking.{
  State, Step, Call, set_call, waiting, missed, got, failed, read_found, read_missed, write_found,
  write_failed, write_created,
}

module _ {B : Type 0} where
  -- The locks that a caller has yet to take, at most.
  abbrev pub locks_left : Call B → ℕ
  locks_left waiting = 2
  locks_left (missed exchange) = 1
  locks_left (got exchange c) = 0
  locks_left (failed e) = 0

  -- The same of the callers with a number below `n`.
  abbrev pub total_left : ℕ → (ℕ → Call B) → ℕ
  total_left zero calls = 0
  total_left (suc n) calls = total_left n calls + locks_left (calls n)

  -- Who makes a step.
  abbrev pub mover : {v w : State B} → Step v w → ℕ
  mover (read_found i exchange c was found) = i
  mover (read_missed i exchange was none_yet) = i
  mover (write_found i exchange c was found) = i
  mover (write_failed i exchange e was none_yet) = i
  mover (write_created i exchange c was none_yet) = i

  -- A run of `k` steps by callers with a number below `n`.
  pub data Run (n : ℕ) (v : State B) : ℕ → State B → Type 0 where
    no_step : Run n v 0 v
    one_step :
        {k : ℕ} {u w : State B} → Run n v k u → (s : Step u w) → mover s < n → Run n v (suc k) w

  total_left-above :
      (n i : ℕ) (c : Call B) (calls : ℕ → Call B)
      → n ≤ i
      → total_left n (set_call i c calls) ≡ total_left n calls
  total_left-above zero i c calls h = refl
  total_left-above (suc n) i c calls h =
      let other : (i == n) ≡ false = ground (arith, h) in
      rw (other, total_left-above n i c calls (omega (arith, h))) refl

  total_left-set_call :
      (n i : ℕ) (c : Call B) (calls : ℕ → Call B)
      → i < n
      → total_left n (set_call i c calls) + locks_left (calls i) ≡ total_left n calls + locks_left c
  total_left-set_call zero i c calls h = omega (arith, h)
  total_left-set_call (suc n) i c calls h = elim (Bool-cases (i == n)) [
    | inl e ↦
        let k : i ≡ n = (==_iff i n).0 e in
        let above = total_left-above n i c calls (omega (arith, k)) in
        rw (e, above) (omega (arith, ap (λ m. locks_left (calls m)) k))
    | inr e ↦
        let below : i < n = ground (arith, h, e) in
        let rest = total_left-set_call n i c calls below in rw e (omega (arith, rest))
  ]

  call_left :
      (n i : ℕ) (c : Call B) (was : Call B) (calls : ℕ → Call B)
      → i < n
      → calls i ≡ was
      → locks_left c < locks_left was
      → suc (total_left n (set_call i c calls)) ≤ total_left n calls
  call_left n i c was calls h e less =
      omega (arith, total_left-set_call n i c calls h, ap locks_left e, less)

  Step-total_left :
      (n : ℕ) {v w : State B} (s : Step v w)
      → mover s < n
      → suc (total_left n w.calls) ≤ total_left n v.calls
  Step-total_left n {v} (read_found i exchange c was found) h =
      call_left n i (got exchange c) waiting v.calls h was (omega arith)
  Step-total_left n {v} (read_missed i exchange was none_yet) h =
      call_left n i (missed exchange) waiting v.calls h was (omega arith)
  Step-total_left n {v} (write_found i exchange c was found) h =
      call_left n i (got exchange c) (missed exchange) v.calls h was (omega arith)
  Step-total_left n {v} (write_failed i exchange e was none_yet) h =
      call_left n i (failed e) (missed exchange) v.calls h was (omega arith)
  Step-total_left n {v} (write_created i exchange c was none_yet) h =
      call_left n i (got exchange c) (missed exchange) v.calls h was (omega arith)

  Run-total_left :
      (n k : ℕ) (v w : State B) → Run n v k w → k + total_left n w.calls ≤ total_left n v.calls
  Run-total_left n zero v w no_step = omega arith
  Run-total_left n (suc k) v w (one_step {k = l} {u} r s h) =
      omega (arith, Run-total_left n k v u r, Step-total_left n s h)

  locks_left_bound : (c : Call B) → locks_left c ≤ 2
  locks_left_bound waiting = omega arith
  locks_left_bound (missed exchange) = omega arith
  locks_left_bound (got exchange c) = omega arith
  locks_left_bound (failed e) = omega arith

  total_left_bound : (n : ℕ) (calls : ℕ → Call B) → total_left n calls ≤ 2 * n
  total_left_bound zero calls = omega arith
  total_left_bound (suc n) calls =
      let last : locks_left (calls n) ≤ 2 = locks_left_bound (calls n) in
      omega (arith, last, total_left_bound n calls)

  -- A caller with an answer.
  abbrev pub IsAnswered : Call B → Type 0
  IsAnswered c = locks_left c ≡ 0

  next_of :
      (w : State B) (i : ℕ) (c : Call B)
      → w.calls i ≡ c
      → IsAnswered c ⊎ ((u : State B) × (s : Step w u) × (mover s ≡ i))
  next_of w i (got exchange c) e = inl refl
  next_of w i (failed reason) e = inl refl
  next_of w i waiting e = elim (Option-cases (find_client [] w.clients)) [
    | inl none_yet ↦ inr (_, read_missed i [] e none_yet, refl)
    | inr (c, found) ↦ inr (_, read_found i [] c e found, refl)
  ]
  next_of w i (missed exchange) e = elim (Option-cases (find_client exchange w.clients)) [
    | inl none_yet ↦ inr (_, write_failed i exchange (message []) e none_yet, refl)
    | inr (c, found) ↦ inr (_, write_found i exchange c e found, refl)
  ]

  -- With what a caller does under a lock as one step: a run of `n` callers of getOrCreateClient has at
  -- most `2 * n` steps; and a caller who has no answer can make a step.
  pub Run-ends :
      (n k : ℕ) (v w : State B)
      → Run n v k w
      → (k ≤ 2 * n)
        × ((i : ℕ) → IsAnswered (w.calls i) ⊎ ((u : State B) × (s : Step w u) × (mover s ≡ i)))
  Run-ends n k v w r = (
    omega (arith, Run-total_left n k v w r, total_left_bound n v.calls),
    λ i. next_of w i (w.calls i) refl,
  )
