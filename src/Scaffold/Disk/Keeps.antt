-- ===== src/Scaffold/Disk/Keeps.antt =====
-- Rules for a relation between the world before an action and the world behind it, whether the
-- action returns or fails.
use web_template_go.Prelude.{◌≡◌, refl, Bool, true, false, if◌then◌else◌, ◌∙◌, ap}
use web_template_go.Text.{Bytes}
use web_template_go.Errors.{Error, Result, ok, err}
use web_template_go.Scaffold.Disk.{
  World, Io, pure, fail, lift, wrap, continue, ◌>>=◌, stat, try_stat, read_file,
}

pub record Respects (R : World → World → Type 0) {A : Type 0} (m : Io A) : Type 0 where
  pub at : (w : World) → R w (m w).1

-- A relation that an action which does nothing respects, and that goes through a sequence.
pub record IsFlow (R : World → World → Type 0) : Type 0 where
  pub stay : (w : World) → R w w
  pub go_on : (u v w : World) → R u v → R v w → R u w

module _ {R : World → World → Type 0} (flow : IsFlow R) where
  pub Respects-pure : {A : Type 0} (a : A) → Respects R (pure a)
  unfolding pure
  Respects-pure a = record { at = flow.stay }

  pub Respects-fail : {A : Type 0} (e : Error) → Respects R (fail {A = A} e)
  unfolding fail
  Respects-fail e = record { at = flow.stay }

  pub Respects-lift : {A : Type 0} (r : Result A) → Respects R (lift r)
  unfolding lift
  Respects-lift r = record { at = flow.stay }

  pub Respects-stat : (path : Bytes) → Respects R (stat path)
  unfolding stat
  Respects-stat path = record { at = flow.stay }

  pub Respects-try_stat : (path : Bytes) → Respects R (try_stat path)
  unfolding try_stat
  Respects-try_stat path = record { at = flow.stay }

  pub Respects-read_file : (path : Bytes) → Respects R (read_file path)
  unfolding read_file
  Respects-read_file path = record { at = flow.stay }

  pub Respects-wrap :
      {A : Type 0} (context : Bytes) (m : Io A) → Respects R m → Respects R (wrap context m)
  unfolding wrap
  Respects-wrap context m h = record { at = h.at }

  pub Respects-if :
      {A : Type 0} (b : Bool) (m n : Io A)
      → Respects R m
      → Respects R n
      → Respects R (if b then m else n)
  Respects-if true m n hm hn = hm
  Respects-if false m n hm hn = hn

  Respects-continue :
      {A B : Type 0} (r : Result A) (f : A → Io B)
      → ((a : A) → Respects R (f a))
      → Respects R (continue r f)
  unfolding continue
  Respects-continue (ok a) f h = record { at = (h a).at }
  Respects-continue (err e) f h = record { at = flow.stay }

  pub Respects-bind :
      {A B : Type 0} (m : Io A) (f : A → Io B)
      → Respects R m
      → ((a : A) → Respects R (f a))
      → Respects R (m >>= f)
  unfolding ◌>>=◌
  Respects-bind m f hm hf = record {
    at = λ w. let (r, w') = m w in flow.go_on w w' _ (hm.at w) ((Respects-continue r f hf).at w');
  }

pub ruleset flow_rules = (
  Respects-pure, Respects-fail, Respects-lift, Respects-stat, Respects-try_stat, Respects-read_file,
  Respects-wrap, Respects-if, Respects-bind,
)

-- An action that fails from a world.
pub record Fails {A : Type 0} (m : Io A) (w : World) : Type 0 where
  pub error : Error
  pub fails : (m w).0 ≡ err error

module _ {A B : Type 0} (m : Io A) (f : A → Io B) (w : World) where
  continue-Fails :
      (r : Result A) (w' : World)
      → ((a : A) → Fails (f a) w')
      → (e : Error) × ((continue r f w').0 ≡ err e)
  unfolding continue
  continue-Fails (ok a) w' k = ((k a).error, (k a).fails)
  continue-Fails (err e) w' k = (e, refl)

  -- What fails whatever the first action returns.
  pub Fails-bind : ((a : A) → Fails (f a) (m w).1) → Fails (m >>= f) w
  unfolding ◌>>=◌
  Fails-bind h = let (e, p) = continue-Fails (m w).0 (m w).1 h in record { error = e; fails = p }

  -- What fails behind a first action that returns `a`.
  pub Fails-bind_ok : (a : A) → (m w).0 ≡ ok a → Fails (f a) (m w).1 → Fails (m >>= f) w
  unfolding ◌>>=◌
  Fails-bind_ok a e h = record {
    error = h.error;
    fails = ap (λ r. (continue r f (m w).1).0) e ∙ unfold continue in h.fails;
  }

  -- A failure ends the sequence, in the world that it leaves.
  pub bind-err : (e : Error) → (m w).0 ≡ err e → (m >>= f) w ≡ (err e, (m w).1)
  unfolding ◌>>=◌
  bind-err e p = ap (λ r. continue r f (m w).1) p ∙ unfold continue in refl
