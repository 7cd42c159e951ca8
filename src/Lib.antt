-- ===== src/Lib.antt =====
-- A web service template on the Kratos framework, and its generator of new services.
--
-- The program has three parts. `cmd/scaffold` runs internal/scaffold/proto.go: RunProto checks the
-- path of a new proto file, lets the Kratos command line and `make` generate code, and then writes
-- and rewrites files of the repository. `cmd/server` loads a configuration, starts the logger, tracing
-- and metrics, and runs the app that wireApp puts together. The app serves the greeter
-- (internal/service, internal/biz, internal/data),
-- which may publish events through internal/pkg/messagingx, and the system endpoints of
-- internal/service/system.go, which probe the databases.
--
-- Texts are lists of bytes, `Bytes`, as Go's strings are; a pointer that may be nil is an `Option`;
-- a pair of a value and an error is a `Result`; a method that changes something takes the old state
-- and returns the new one beside its result.
--
-- The files:
-- - Prelude: the library's names that all files use, Boolean tests on numbers, and lists.
-- - Text, with Text/Basic, Search, Parts, Trim and Case: what the program uses of Go's packages
--   strings and unicode.
-- - FilePath, with FilePath/Names, Split, Clean, File and Laws: path/filepath on Unix.
-- - Errors: the errors, `errors.Is(err, os.ErrNotExist)` as `is_not_exist`, and `Result`.
-- - Scaffold/ProtoPath: NormalizeProtoPath, GoPackageForProto, cleanRelativeDir, serviceFilename and
--   protoPackage of internal/scaffold/proto.go, and below it what they make of the paths of Shape.
-- - Scaffold/Naming: singularize, lowerCamel and upperCamel.
-- - Scaffold/GoPackageOption: goPackageRE and ReplaceGoPackage.
-- - Scaffold/Edits: the texts that updateProviderSet, addImport, registerServiceInServer and
--   injectConfigEntry make of a file; below it a file for each.
-- - Scaffold/Templates: the files that rewriteProtoAsCRUD, writeBizStub and writeDataStub write, and
--   protoNextSteps.
-- - Scaffold/Disk: the calls of package os and the Runner, as actions on a `World`, the disk and the
--   commands that have been run. Scaffold/Files: the functions that read and write files, and
--   Scaffold/Files/Runs about them and commands.
-- - Scaffold/Run: RunProto, in three parts: `prepare` up to the first command, `run_commands`, and
--   `generate`. Below it, Prepare is about the first part, Commands (by the rules of Logs) about
--   the commands of a run, and Inside about where its files are.
-- - Greeter/Usecase, Greeter/Repo and Greeter/Service: internal/biz/greeter.go, internal/data and
--   internal/service but for system.go. Greeter/Trace is the log and the state of the outside.
-- - System: internal/service/system.go and the route /readyz of internal/server/http.go.
--   System/Table is `map[string]string` and copyChecks, System/Cache the calls that run at once.
-- - Messaging: internal/pkg/messagingx/rabbitmq.go. Messaging/Locking has the callers of
--   getOrCreateClient that run at once: what runs under a lock is a single step.
--   Messaging/Alone is about a caller that runs alone, Messaging/Atomic has an abstract registry that
--   this carries out, Messaging/Rounds counts the steps of the callers, Messaging/Balance is about what is
--   connected and disconnected, and Messaging/Mqtt has mqtt.go.
-- - Databases: internal/pkg/dbx, with Databases/Postgres, Redis and Mongo; Databases/Balance is about
--   what they open and close.
-- - Discovery and Remote: internal/pkg/discoveryx and internal/pkg/grpcx, each with a file Balance; and
--   Discovery/Overrides about what settings override.
-- - Metrics: internal/pkg/metricsx, and Metrics/Once about its sync.Once.
-- - Tracing: internal/pkg/tracingx, and Tracing/Laws.
-- - Logging: internal/pkg/logx/logger.go. Logging/Numbers has parseIntEnv with the part of
--   fmt.Sscanf that it uses, and Logging/Bounds is about its results.
-- - Servers: NewGRPCServer and NewHTTPServer of internal/server. Below it, Middleware has
--   commonMiddlewares, Queues the servers for MQTT, RabbitMQ and websockets, Routes with
--   Routes/Codes the routes of the HTTP server, and Start the servers that wireApp makes behind the
--   gRPC server; Start/Presence is about which of them there are, Start/Quiet about what they leave
--   alone.
-- - Wire: wireApp of cmd/server/wire_gen.go over providers that are arguments, with Wire/Balance, and
--   the servers that newApp of cmd/server/main.go takes. Wire/Program gives it the constructors of
--   the repository, in the state `Process`, which has the connections to RabbitMQ and the publisher
--   apart, as the cleanup reads the publisher's map when it is called; Program/Balance is about what is closed again, and
--   Program/App about the app.
-- - Main: main and loadBootstrap of cmd/server/main.go; Main/Closed is about the ends of main, and
--   Main/Load about the configuration file.
-- - CommandLine: cmd/scaffold/main.go. CommandLine/Parse is the part of package flag that it uses,
--   CommandLine/Spelling is about flags that are spelled out, CommandLine/Exit about exit codes.
-- - Tests: runs on fixed inputs, among them those of internal/scaffold/scaffold_test.go.
--
-- Parameters stand for code outside the repository: the Unicode tables beyond ASCII (`Unicode`),
-- the programs that are started (`Runner`), the working directory (`Host.getwd`), the greeter's
-- remote client (`GreeterClient`), the broker libraries (`Brokers`, `MqttBrokers`, `EventClient`), the
-- websocket library (`WebsocketServer`) and the other transports (`Transports`), what a probe of a
-- database finds (`Probes`), the libraries of databases, discovery, gRPC, metrics and tracing
-- (`PostgresDriver`, `RedisDriver`, `MongoDriver`, `KubernetesDriver`, `RemoteDriver`,
-- `MetricsDriver`, `TracingDriver`), os.Getenv, yaml.Unmarshal, app.Run, and applyEnvOverrides, which
-- main calls and no file defines. Laws of the libraries, such as that Close closes what Open has
-- opened, are records with names in `Is`, and are hypotheses where they are needed.
--
-- All functions are by structural recursion, on a text, a list of lines, of names or of arguments, so
-- there is no fuel. Numbers are not bounded, but where the program reads one from the environment,
-- which fits an int of 64 bits or is an error: else it counts bytes and lines of texts in memory, and
-- nanoseconds, far below 2^63. A configured number or duration, which may be negative, is a `ℤ`, and
-- the program only compares it with 0; a ratio is of a type that is a parameter. The disk has no
-- symbolic links, and another process changes it only while a command runs; for a path below a regular
-- file the error is ENOTDIR, and ENOENT for another one where nothing is. The map of brokers is gone
-- through in the order of a list, which stands for any order of Go's.
--
-- Not modelled: the fixed fields of log entries, contexts and their cancellation, the texts of the
-- usage of cmd/scaffold and of package flag's messages (they are values of a data type), the
-- generated code of api/, the provider sets, which are arguments of the wire tool, and the default
-- logger that dbx, discoveryx and tracingx take in place of a nil one, which the program never passes.
pub mod Prelude
pub mod Text
pub mod FilePath
pub mod Errors
pub mod Scaffold
pub mod Greeter
pub mod System
pub mod Messaging
pub mod Databases
pub mod Discovery
pub mod Remote
pub mod Metrics
pub mod Tracing
pub mod Logging
pub mod Servers
pub mod Wire
pub mod Main
pub mod CommandLine
pub mod Tests
