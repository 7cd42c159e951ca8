-- ===== src/CommandLine/Exit.antt =====
-- The exit codes of the generator, and when it touches the disk.
use web_template_go.Scaffold.Disk.{World}
use web_template_go.Errors.{ok, err, Result}
use web_template_go.Prelude.{
  List, [], ◌∷◌, ◌↔◌, Option, none, some, Bool-cases, sym, ap, ◌≡◌, refl, ◌⊎◌, inl, inr, arith,
  ◌||◌, ◌≢◌, false, true, ◌∙◌,
}
use web_template_go.FilePath.Names.{step}
use web_template_go.Text.{Bytes, bytes, same, same-eq, same_iff}
use web_template_go.CommandLine.Parse.{
  FlagError, Flags, parse_flags, accepted, refused, bad_flag_syntax, not_defined, invalid_boolean,
  needs_argument, help_requested, Parsed,
}
use web_template_go.Scaffold.Run.{Host, ProtoResult, run_proto}
use web_template_go.CommandLine.{
  Failure, Terminal, after_command, main, options_of, print, print_flag_error, print_next_steps,
  print_result, print_steps, Parsed, after_run, run_parsed, World, run_command, run_proto_command,
}

accepted-injective :
    {f g : Flags} {p q : Bytes} → accepted f (p ∷ []) ≡ accepted g (q ∷ []) → (f ≡ g) × (p ≡ q)
accepted-injective h = (ground arith, ground arith)

module _ (host : Host) where
  print_steps-world : (steps : List Bytes) (t : Terminal) → (print_steps steps t).world ≡ t.world
  unfolding print_steps print
  print_steps-world [] t = refl
  print_steps-world (step ∷ steps) t = print_steps-world steps _

  print_next_steps-world :
      (steps : List Bytes) (t : Terminal) → (print_next_steps steps t).world ≡ t.world
  unfolding print_next_steps print
  print_next_steps-world [] t = refl
  print_next_steps-world (s ∷ steps) t = print_steps-world (s ∷ steps) _

  print_result-world :
      (result : ProtoResult) (t : Terminal) → (print_result result t).world ≡ t.world
  unfolding print_result print
  print_result-world result t = print_next_steps-world result.next_steps _

  print_flag_error-world : (e : FlagError) (t : Terminal) → (print_flag_error e t).world ≡ t.world
  unfolding print_flag_error print
  print_flag_error-world (bad_flag_syntax s) t = refl
  print_flag_error-world (not_defined s) t = refl
  print_flag_error-world (invalid_boolean s n) t = refl
  print_flag_error-world (needs_argument s) t = refl
  print_flag_error-world help_requested t = refl

  after_command-code :
      (r : Option Failure × Terminal) → ((after_command host r).0 ≡ 0) ↔ (r.0 ≡ none)
  unfolding after_command
  after_command-code (none, t) = (λ h. refl, λ h. refl)
  after_command-code (some f, t) = (λ h. ground arith, λ h. ground arith)

  after_command-world : (r : Option Failure × Terminal) → (after_command host r).1.world ≡ r.1.world
  unfolding after_command print
  after_command-world (none, t) = refl
  after_command-world (some f, t) = refl

  after_run-none :
      (r : Result ProtoResult × World) (t : Terminal)
      → ((after_run r t).0 ≡ none)
        ↔ ((result : ProtoResult) × (r ≡ (ok result, (after_run r t).1.world)))
  unfolding after_run
  after_run-none (err e, w) t = (λ h. ground arith, λ h. ground arith)
  after_run-none (ok result, w) t = (
    λ h. (
      result,
      ap (λ u. (ok result, u)) (sym (print_result-world result (record t { world = w }))),
    ),
    λ h. refl,
  )

  -- An answer of package flag and a run with its options that succeeds, with the end state `w`.
  abbrev pub HasRun : Parsed → Terminal → World → Type 0
  HasRun parsed t w =
      (flags : Flags) × (proto : Bytes) × (result : ProtoResult) × (parsed
        ≡ accepted flags (proto ∷ []))
      × (run_proto host (options_of flags proto) t.world ≡ (ok result, w))

  run_parsed-none :
      (parsed : Parsed) (t : Terminal)
      → ((run_parsed host parsed t).0 ≡ none) ↔ HasRun parsed t (run_parsed host parsed t).1.world
  unfolding run_parsed
  run_parsed-none (refused e) t = (λ h. ground arith, λ h. ground arith)
  run_parsed-none (accepted flags []) t = (λ h. ground arith, λ h. ground arith)
  run_parsed-none (accepted flags (p ∷ q ∷ args)) t = (λ h. ground arith, λ h. ground arith)
  run_parsed-none (accepted flags (proto ∷ [])) t =
      let k = after_run-none (run_proto host (options_of flags proto) t.world) t in
      (
        λ h. let (result, e) = k.0 h in (flags, proto, result, refl, e),
        λ (f, p, result, e, q).
            let (a, b) = accepted-injective e in k.1 (result, rw (sym a, sym b) at q),
      )

  main_proto :
      (program : Bytes) (args : List Bytes) (t : Terminal)
      → main host (program ∷ bytes "proto" ∷ args) t
        ≡ after_command host (run_parsed host (parse_flags args) t)
  unfolding main run_command run_proto_command bytes same
  main_proto program args t = refl

  -- `scaffold proto` ends in exit code 0 just when package flag leaves one argument, and RunProto
  -- succeeds with the options that the flags and that argument give; what is on the disk and which
  -- commands have been run is then as RunProto has left it.
  pub main_proto_exit :
      (program : Bytes) (args : List Bytes) (t : Terminal)
      → let r = main host (program ∷ bytes "proto" ∷ args) t in
        (r.0 ≡ 0) ↔ HasRun (parse_flags args) t r.1.world
  main_proto_exit program args t =
      let r = run_parsed host (parse_flags args) t in
      let codes = after_command-code r in
      let runs = run_parsed-none (parse_flags args) t in
      rw (main_proto program args t, after_command-world r)
        (λ h. runs.0 (codes.0 h), λ h. codes.1 (runs.1 h))

  after_run-world : (r : Result ProtoResult × World) (t : Terminal) → (after_run r t).1.world ≡ r.1
  unfolding after_run
  after_run-world (err e, w) t = refl
  after_run-world (ok result, w) t = print_result-world result (record t { world = w })

  -- A command line that calls RunProto with these flags and this proto path.
  abbrev pub Calls : List Bytes → Flags → Bytes → Type 0
  Calls args flags proto =
      (program : Bytes) × (rest : List Bytes) × (args ≡ program ∷ bytes "proto" ∷ rest)
      × (parse_flags rest ≡ accepted flags (proto ∷ []))

  -- The world of a command line `args`: that of RunProto if it is called, and else the one before.
  abbrev pub WorldOf : List Bytes → Terminal → World → Type 0
  WorldOf args t w =
      (((flags : Flags) (proto : Bytes) → ¬ Calls args flags proto) × (w ≡ t.world))
      ⊎ ((flags : Flags) × (proto : Bytes) × Calls args flags proto
          × (w ≡ (run_proto host (options_of flags proto) t.world).1))

  behind_two :
      {a b c d : Bytes} {xs ys : List Bytes} → (a ∷ b ∷ xs) ≡ (c ∷ d ∷ ys) → (b ≡ d) × (xs ≡ ys)
  behind_two h = (ground (arith, h), ground (arith, h))

  no-Calls :
      (program : Bytes) (rest : List Bytes) (parsed : Parsed)
      → parse_flags rest ≡ parsed
      → ((flags : Flags) (proto : Bytes) → parsed ≢ accepted flags (proto ∷ []))
      → (flags : Flags) (proto : Bytes) → ¬ Calls (program ∷ bytes "proto" ∷ rest) flags proto
  no-Calls program rest parsed e other flags proto (p, r, same_args, h) =
      other flags proto (sym e ∙ ap parse_flags (behind_two same_args).1 ∙ h)

  -- `rest` is read as flags and one argument, or not.
  run_parsed-WorldOf :
      (program : Bytes) (rest : List Bytes) (t : Terminal) (parsed : Parsed)
      → parse_flags rest ≡ parsed
      → WorldOf (program ∷ bytes "proto" ∷ rest) t (run_parsed host parsed t).1.world
  unfolding run_parsed
  run_parsed-WorldOf program rest t (refused x) e =
      inl (no-Calls program rest _ e λ flags proto k. ground (arith, k), print_flag_error-world x t)
  run_parsed-WorldOf program rest t (accepted flags []) e =
      inl (no-Calls program rest _ e λ flags proto k. ground (arith, k), refl)
  run_parsed-WorldOf program rest t (accepted flags (p ∷ q ∷ args)) e =
      inl (no-Calls program rest _ e λ flags proto k. ground (arith, k), refl)
  run_parsed-WorldOf program rest t (accepted flags (proto ∷ [])) e = inr (
    flags,
    proto,
    (program, rest, refl, e),
    after_run-world (run_proto host (options_of flags proto) t.world) t,
  )

  other_command :
      (program command : Bytes) (rest : List Bytes) (flags : Flags) (proto : Bytes)
      → same command (bytes "proto") ≡ false
      → ¬ Calls (program ∷ command ∷ rest) flags proto
  other_command program command rest flags proto e (p, r, same_args, h) =
      let k : same command (bytes "proto") ≡ true =
        (same_iff command (bytes "proto")).1 (behind_two same_args).0 in
      ground (arith, e, k)

  run_command-WorldOf :
      (program command : Bytes) (rest : List Bytes) (t : Terminal)
      → WorldOf (program ∷ command ∷ rest) t (run_command host command rest t).1.world
  unfolding run_command run_proto_command print
  run_command-WorldOf program command rest t = elim (Bool-cases (same command (bytes "proto"))) [
    | inl e ↦
        rw (e, after_command-world (run_parsed host (parse_flags rest) t), same-eq command _ e)
          (run_parsed-WorldOf program rest t (parse_flags rest) refl)
    | inr e ↦
        let other : (flags : Flags) (proto : Bytes)
            → ¬ Calls (program ∷ command ∷ rest) flags proto =
          λ flags proto. other_command program command rest flags proto e in
        elim (Bool-cases (
          same command (bytes "-h")
          || same command (bytes "--help")
          || same command (bytes "help"))) [
            | inl f ↦ rw (e, f) (inl (other, refl))
            | inr f ↦ rw (e, f) (inl (other, refl))
          ]
  ]

  -- For any os.Args, main leaves the disk and the list of commands as RunProto does, if the command
  -- is `proto` and package flag leaves one argument; and as they were in every other case.
  pub main-world : (args : List Bytes) (t : Terminal) → WorldOf args t (main host args t).1.world
  unfolding main print
  main-world [] t = inl (λ flags proto (p, r, e, h). ground (arith, e), refl)
  main-world (program ∷ []) t = inl (λ flags proto (p, r, e, h). ground (arith, e), refl)
  main-world (program ∷ command ∷ rest) t = run_command-WorldOf program command rest t
