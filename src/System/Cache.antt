-- ===== src/System/Cache.antt =====
-- Readiness answers are consistent, cached or not, however the calls interleave.
use web_template_go.Prelude.{
  ℕ, [], Bool, true, false, ◌≡◌, refl, ◌⊎◌, inl, inr, arith, if◌then◌else◌, ◌==◌, Bool-cases, ◌∷◌,
  not, ◌&&◌, ◌||◌,
}
use web_template_go.Text.{bytes, same, Bytes}
use web_template_go.System.Table.{Checks, copy_checks, insert, copy_from, get}
use web_template_go.System.{
  Probes, check, SystemService, new_system_service, run_checks, not_down, all_not_down, is_fresh,
  store,
}

-- The three checks, in a map.
run_checks-table :
    (p : Probes)
    → run_checks p
      ≡ (bytes "postgres", check p.postgres)
        ∷ (bytes "redis", check p.redis)
        ∷ (bytes "mongodb", check p.mongodb)
        ∷ []
unfolding run_checks insert same bytes
run_checks-table p = refl

copy-run_checks : (p : Probes) → copy_checks (run_checks p) ≡ run_checks p
unfolding run_checks insert same bytes copy_checks copy_from
copy-run_checks p = refl

-- Some value of the map is "down".
unfoldable pub any_down : Checks → Bool
any_down [] = false
any_down ((name, value) ∷ checks) = same value (bytes "down") || any_down checks

-- The database with this name is in the map.
unfoldable pub shows : Bytes → Checks → Bool
shows name [] = false
shows name ((key, value) ∷ checks) = same key name || shows name checks

-- A readiness that fits the checks shown with it: all three databases are shown, and it says "ready"
-- exactly if none of the values is "down".
abbrev pub Fits : Bool → Checks → Type 0
Fits ready checks =
    (ready ≡ not (any_down checks))
    × (shows (bytes "postgres") checks ≡ true)
    × (shows (bytes "redis") checks ≡ true)
    × (shows (bytes "mongodb") checks ≡ true)

none_of_three : (a b c : Bool) → ((not a && not b) && not c) ≡ not (a || (b || (c || false)))
none_of_three true b c = refl
none_of_three false true c = refl
none_of_three false false true = refl
none_of_three false false false = refl

run_checks-Fits : (p : Probes) → Fits (all_not_down (run_checks p)) (run_checks p)
unfolding run_checks all_not_down not_down any_down shows get insert same bytes
run_checks-Fits p = (
  none_of_three (same (check p.postgres) (bytes "down")) (same (check p.redis) (bytes "down"))
      (same (check p.mongodb) (bytes "down")),
  refl,
  refl,
  refl,
)

-- What the cache holds once it has been filled: the checks of some probes, and their readiness.
pub record IsFilled (s : SystemService) : Type 0 where
  pub probes : Probes
  pub checks : s.cache_checks ≡ run_checks probes
  pub ready : s.cache_ready ≡ all_not_down (run_checks probes)

abbrev pub IsValid : SystemService → Type 0
IsValid s = (s.cache_at ≡ 0) ⊎ IsFilled s

store-IsFilled : (s : SystemService) (now : ℕ) (p : Probes) → IsFilled (store s now (run_checks p))
unfolding store
store-IsFilled s now p = record { probes = p; checks = copy-run_checks p; ready = refl }

-- A cached answer: its readiness is that of the checks that go with it.
cached :
    (s : SystemService) (now : ℕ)
    → IsValid s
    → is_fresh s now ≡ true
    → Fits s.cache_ready (copy_checks s.cache_checks)
unfolding is_fresh
cached s now (inl z) h = ground arith
cached s now (inr f) h = rw (f.checks, f.ready, copy-run_checks f.probes) (run_checks-Fits f.probes)

-- A handler of readiness: it has done nothing yet, it has found the cache stale at a time, or it
-- has answered.
pub data Phase : Type 0 where
  waiting : Phase
  probing : ℕ → Phase
  answered : Bool → Checks → Phase

pub record World : Type 0 where
  pub service : SystemService
  pub calls : ℕ → Phase

abbrev pub set_call : ℕ → Phase → (ℕ → Phase) → ℕ → Phase
set_call i p calls j = if i == j then p else calls j

-- The locks make the read and the write of the cache single steps; the probes run between them.
pub data Step (w : World) : World → Type 0 where
  hit :
      (i now : ℕ)
      → w.calls i ≡ waiting
      → is_fresh w.service now ≡ true
      → Step w (record w {
        calls =
            set_call i
              (answered w.service.cache_ready (copy_checks w.service.cache_checks))
              w.calls;
      })
  miss :
      (i now : ℕ)
      → w.calls i ≡ waiting
      → is_fresh w.service now ≡ false
      → Step w (record w { calls = set_call i (probing now) w.calls })
  refresh :
      (i now : ℕ) (p : Probes)
      → w.calls i ≡ probing now
      → Step w (record {
        service = store w.service now (run_checks p);
        calls = set_call i (answered (all_not_down (run_checks p)) (run_checks p)) w.calls;
      })

pub data Reach (start : World) : World → Type 0 where
  here : Reach start start
  next : {v w : World} → Reach start v → Step v w → Reach start w

-- An answer shows the three databases, and says "ready" exactly if none of them is "down".
abbrev pub IsConsistent : Phase → Type 0
IsConsistent (answered ready checks) = Fits ready checks
IsConsistent _ = Unit

pub record IsSound (w : World) : Type 0 where
  pub valid : IsValid w.service
  pub consistent : (i : ℕ) → IsConsistent (w.calls i)

set_call-IsConsistent :
    (i : ℕ) (p : Phase) (calls : ℕ → Phase)
    → IsConsistent p
    → ((j : ℕ) → IsConsistent (calls j))
    → (j : ℕ) → IsConsistent (set_call i p calls j)
set_call-IsConsistent i p calls hp h j = elim (Bool-cases (i == j)) [
  | inl e ↦ rw e hp
  | inr e ↦ rw e (h j)
]

Step-IsSound : {v w : World} → Step v w → IsSound v → IsSound w
Step-IsSound {v} (hit i now idle fresh) h = record {
  valid = h.valid;
  consistent = set_call-IsConsistent i _ v.calls (cached v.service now h.valid fresh) h.consistent;
}
Step-IsSound {v} (miss i now idle stale) h = record {
  valid = h.valid;
  consistent = set_call-IsConsistent i _ v.calls tt h.consistent;
}
Step-IsSound {v} (refresh i now p was) h = record {
  valid = inr (store-IsFilled v.service now p);
  consistent = set_call-IsConsistent i _ v.calls (run_checks-Fits p) h.consistent;
}

-- The program's start: nothing is cached, and nobody has been answered.
abbrev pub initial : ℕ → World
initial now = record { service = new_system_service now; calls = λ i. waiting }

initial-IsSound : (now : ℕ) → IsSound (initial now)
unfolding new_system_service
initial-IsSound now = record { valid = inl refl; consistent = λ i. tt }

-- Whatever calls run in whatever order, every answer shows the three databases, and says "ready"
-- exactly if none of the values that it shows is "down".
pub readiness-IsConsistent :
    (now : ℕ) (w : World) → Reach (initial now) w → (i : ℕ) → IsConsistent (w.calls i)
readiness-IsConsistent now w r = (sound r).consistent
  where
    sound : {v : World} → Reach (initial now) v → IsSound v
    sound here = initial-IsSound now
    sound (next r s) = Step-IsSound s (sound r)
