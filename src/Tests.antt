-- ===== src/Tests.antt =====
-- The tests of internal/scaffold/scaffold_test.go and further runs on fixed inputs, with the theorems
-- of the library at concrete values.
pub mod Paths
pub mod Texts
pub mod Options
pub mod Generator
pub mod Generation
pub mod Greeting
pub mod Readiness
pub mod Brokers
pub mod Wiring
pub mod Startup
pub mod Connections
pub mod Arguments
pub mod Logs
pub mod Serving
pub mod Program
