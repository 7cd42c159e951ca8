-- ===== src/Greeter.antt =====
-- The greeter: internal/biz/greeter.go, internal/data/greeter.go, internal/data/rabbitmq_publisher.go
-- and internal/service/greeter.go, rabbitmq.go and websocket.go. Contexts are passed on and not
-- read. Remote calls and brokers are parameters that act on a state `S` of the outside.
pub mod Trace
pub mod Usecase
pub mod Repo
pub mod Service
pub mod Laws
pub mod EndToEnd
