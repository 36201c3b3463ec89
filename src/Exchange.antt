-- ===== src/Exchange.antt =====
-- pkg/client/rpc.go and pkg/server/rpc.go: one request and its response.
pub mod Wire
pub mod Respond
pub mod Call
pub mod Travel
pub mod Cleanup
mod Tests
