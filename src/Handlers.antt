-- ===== src/Handlers.antt =====
-- pkg/server/rpc.go and pkg/server/stream.go: the handlers of a server.
pub mod Creation
pub mod Request
pub mod Handling
pub mod Life
pub mod Completion
pub mod Streams
pub mod Draining
mod Tests
