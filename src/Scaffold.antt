-- ===== src/Scaffold.antt =====
-- internal/scaffold: the generator behind `go run ./cmd/scaffold proto`.
pub mod ProtoPath
pub mod Naming
pub mod Edits
pub mod GoPackageOption
pub mod Templates
pub mod Disk
pub mod Files
pub mod Run
