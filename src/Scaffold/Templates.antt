-- ===== src/Scaffold/Templates.antt =====
-- The texts that the generator writes: rewriteProtoAsCRUD, writeBizStub, writeDataStub and
-- protoNextSteps of internal/scaffold/proto.go.
pub mod Names
pub mod Crud
pub mod Biz
pub mod Data
pub mod Steps
pub mod Constructors
pub mod GoPackage
