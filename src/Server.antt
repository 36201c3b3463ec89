-- ===== src/Server.antt =====
-- pkg/server/server.go and pkg/server/registration.go: the handlers of a server.
pub mod Registry
pub mod Added
pub mod Rollback
pub mod Closing
mod Tests
