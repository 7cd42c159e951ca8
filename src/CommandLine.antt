-- ===== src/CommandLine.antt =====
-- cmd/scaffold/main.go: the arguments of the generator, its prints and its exit codes.
pub mod Parse
pub mod Spelling
pub mod Exit
use web_template_go.Prelude.{
  ℕ, zero, suc, ◌+◌, ◌-◌, ◌<◌, ◌≤◌, List, [], ◌∷◌, ◌++◌, Bool, true, false, not, ◌↔◌, map, Option,
  none, some, if◌then◌else◌, Bool-cases, Option-cases, sym, ap, ◌==◌, ◌∙◌, ◌≡◌, ◌≢◌, refl, ◌⊎◌, inl,
  inr, arith, ◌||◌,
}
use web_template_go.Scaffold.Disk.{World}
use web_template_go.Errors.{Error, Result, ok, err}
use web_template_go.FilePath.Names.{step}
use web_template_go.Text.{Bytes, bytes, same}
use web_template_go.CommandLine.Parse.{
  FlagError, Flags, Parsed, parse_flags, refused, accepted, help_requested,
}
use web_template_go.Scaffold.Run.{Host, ProtoOptions, ProtoResult, run_proto}

-- Why `scaffold proto` fails: package flag has refused the arguments, there is not one argument
-- besides the flags, or RunProto has returned an error.
pub data Failure : Type 0 where
  bad_flags : FlagError → Failure
  not_one_argument : Failure
  run_failed : Error → Failure

-- What is printed: the lines on standard output, and on standard error the message of a refused
-- flag, the list of flags, the failure, the unknown command and the usage of the program.
pub data Print : Type 0 where
  line : Bytes → Print
  flag_message : FlagError → Print
  flag_usage : Print
  failure : Failure → Print
  unknown_command : Bytes → Print
  usage : Print

pub record Terminal : Type 0 where
  pub world : World
  pub prints : List Print

unfoldable pub print : Print → Terminal → Terminal
print p t = record t { prints = t.prints ++ p ∷ [] }

-- What package flag prints when it refuses the arguments: for -h the list of flags alone.
unfoldable pub print_flag_error : FlagError → Terminal → Terminal
unfolding print
print_flag_error help_requested t = print flag_usage t
print_flag_error e t = print flag_usage (print (flag_message e) t)

unfoldable pub print_steps : List Bytes → Terminal → Terminal
unfolding print
print_steps [] t = t
print_steps (step ∷ steps) t = print_steps steps (print (line (bytes "- " ++ step)) t)

unfoldable pub print_next_steps : List Bytes → Terminal → Terminal
unfolding print_steps
print_next_steps [] t = t
print_next_steps (step ∷ steps) t =
    print_steps (step ∷ steps) (print (line (bytes "next steps:")) t)

unfoldable pub print_result : ProtoResult → Terminal → Terminal
unfolding print_next_steps
print_result result t = print_next_steps result.next_steps (
    print (line (bytes "created service: " ++ result.service_path))
      (print (line (bytes "created proto: " ++ result.proto_path)) t))

unfoldable pub options_of : Flags → Bytes → ProtoOptions
options_of flags proto = record {
  root_dir = flags.root;
  proto = proto;
  service_target_dir = flags.target_dir;
  biz_target_dir = [];
  data_target_dir = [];
  crud = flags.crud;
  skip_auto_register = flags.skip_auto_register;
  runner = none;
}

unfoldable pub after_run : Result ProtoResult × World → Terminal → Option Failure × Terminal
unfolding print_result
after_run (err e, w) t = (some (run_failed e), record t { world = w })
after_run (ok result, w) t = (none, print_result result (record t { world = w }))

module _ (host : Host) where
  -- runProto behind fs.Parse, with the arguments that are no flags.
  unfoldable pub run_parsed : Parsed → Terminal → Option Failure × Terminal
  unfolding after_run options_of print_flag_error
  run_parsed (refused e) t = (some (bad_flags e), print_flag_error e t)
  run_parsed (accepted flags (proto ∷ [])) t =
      after_run (run_proto host (options_of flags proto) t.world) t
  run_parsed (accepted flags _) t = (some not_one_argument, t)

  -- runProto of main.go
  unfoldable pub run_proto_command : List Bytes → Terminal → Option Failure × Terminal
  unfolding run_parsed
  run_proto_command args t = run_parsed (parse_flags args) t

  -- The exit code of `scaffold proto`.
  unfoldable pub after_command : Option Failure × Terminal → ℕ × Terminal
  unfolding print
  after_command (none, t) = (0, t)
  after_command (some f, t) = (1, print (failure f) t)

  -- The switch on os.Args[1], with os.Args[2:].
  unfoldable pub run_command : Bytes → List Bytes → Terminal → ℕ × Terminal
  unfolding after_command run_proto_command print
  run_command command args t =
      if same command (bytes "proto")
      then after_command (run_proto_command args t)
      else if same command (bytes "-h")
          || same command (bytes "--help")
          || same command (bytes "help")
      then (0, print usage t)
      else (2, print usage (print (unknown_command command) t))

  -- main, for os.Args: the exit code and what is left.
  unfoldable pub main : List Bytes → Terminal → ℕ × Terminal
  unfolding run_command print
  main (program ∷ command ∷ args) t = run_command command args t
  main _ t = (2, print usage t)
