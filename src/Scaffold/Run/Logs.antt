-- ===== src/Scaffold/Run/Logs.antt =====
-- Rules for the commands that an action has run when it returns.
use web_template_go.Prelude.{
  List, [], ◌∷◌, ◌++◌, Option, none, some, sym, ap, ◌∙◌, ◌≡◌, refl, arith, append-nil, append_assoc,
}
use web_template_go.Scaffold.Disk.Keeps.{Respects}
use web_template_go.Text.{Bytes, same}
use web_template_go.Errors.{Error, Result, ok, err, wrapped}
use web_template_go.Scaffold.Files.Runs.{SameRuns}
use web_template_go.Scaffold.Disk.{
  Command, Io, Runner, World, continue, finish, pure, run, wrap, wrap_result, ◌>>=◌,
}

-- Whenever `m` returns, the commands that it has run satisfy `P`.
pub record Logs (P : List Command → Type 0) {A : Type 0} (m : Io A) : Type 0 where
  pub at :
      (w : World) (a : A)
      → (m w).0 ≡ ok a
      → (cs : List Command) × P cs × ((m w).1.runs ≡ w.runs ++ cs)

-- A first command, and what comes behind it.
abbrev pub After : Command → (List Command → Type 0) → List Command → Type 0
After c P cs = (ds : List Command) × P ds × (cs ≡ c ∷ ds)

module _ {P : List Command → Type 0} where
  pub Logs-pure : {A : Type 0} (a : A) → P [] → Logs P (pure a)
  unfolding pure
  Logs-pure a h = record { at = λ w b e. ([], h, sym (append-nil w.runs)) }

  module _ {A B : Type 0} where
    Logs-continue :
        (r : Result A) (f : A → Io B) (w : World) (b : B)
        → ((a : A) → Logs P (f a))
        → (continue r f w).0 ≡ ok b
        → (cs : List Command) × P cs × ((continue r f w).1.runs ≡ w.runs ++ cs)
    unfolding continue
    Logs-continue (ok a) f w b h e = (h a).at w b e
    Logs-continue (err x) f w b h e = absurd (ground arith)

    -- Behind an action that runs no command.
    pub Logs-quiet :
        (m : Io A) (f : A → Io B)
        → Respects SameRuns m
        → ((a : A) → Logs P (f a))
        → Logs P (m >>= f)
    unfolding ◌>>=◌
    Logs-quiet m f still h = record {
      at = λ w b e.
          let (cs, p, q) = Logs-continue (m w).0 f (m w).1 b h e in
          (cs, p, q ∙ ap (λ runs. runs ++ cs) (still.at w));
    }

  Logs-run_continue :
      {B : Type 0} (e : Option Error) (context : Bytes) (f : Unit → Io B) (w : World) (b : B)
      → ((a : Unit) → Logs P (f a))
      → (continue (wrap_result context (finish e w w).0) f (finish e w w).1).0 ≡ ok b
      → (cs : List Command) × P cs
        × ((continue (wrap_result context (finish e w w).0) f (finish e w w).1).1.runs
            ≡ w.runs ++ cs)
  unfolding finish wrap_result
  Logs-run_continue none context f w b h e = Logs-continue (ok tt) f w b h e
  Logs-run_continue (some x) context f w b h e = Logs-continue (err (wrapped context x)) f w b h e

  -- Behind a command.
  pub Logs-run :
      {B : Type 0} (context : Bytes) (runner : Runner) (d name : Bytes) (args : List Bytes)
      (f : Unit → Io B)
      → ((a : Unit) → Logs P (f a))
      → Logs
          (After (record { dir = d; name = name; args = args }) P)
          (wrap context (run runner d name args) >>= f)
  unfolding ◌>>=◌ wrap run
  Logs-run context runner d name args f h = record {
    at = λ w b e.
        let c : Command = record { dir = d; name = name; args = args } in
        let r = runner c w.disk in
        let (cs, p, q) =
          Logs-run_continue r.0 context f (record { disk = r.1; runs = w.runs ++ c ∷ [] }) b h e in
        (c ∷ cs, (cs, p, refl), q ∙ append_assoc w.runs (c ∷ []) cs);
  }

pub Logs-map :
    {P Q : List Command → Type 0} {A : Type 0} (m : Io A)
    → ((cs : List Command) → P cs → Q cs)
    → Logs P m
    → Logs Q m
Logs-map m f h = record { at = λ w a e. let (cs, p, q) = h.at w a e in (cs, f cs p, q) }

module _ {A B : Type 0} (m : Io A) (f : A → Io B) (still : (a : A) → Respects SameRuns (f a)) where
  continue-Logs :
      (r : Result A) (w : World) (b : B)
      → (continue r f w).0 ≡ ok b
      → (a : A) × (r ≡ ok a) × ((continue r f w).1.runs ≡ w.runs)
  unfolding continue
  continue-Logs (ok a) w b e = (a, refl, (still a).at w)
  continue-Logs (err x) w b e = absurd (ground arith)

  -- Before what runs no command.
  pub Logs-before : {P : List Command → Type 0} → Logs P m → Logs P (m >>= f)
  unfolding ◌>>=◌
  Logs-before h = record {
    at = λ w b e.
        let (a, p, same) = continue-Logs (m w).0 (m w).1 b e in
        let (cs, q, t) = h.at w a p in (cs, q, same ∙ t);
  }
