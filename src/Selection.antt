-- ===== src/Selection.antt =====
-- pkg/client/rpc.go and pkg/server/rpc.go: how a client chooses the server of a request.
pub mod Affinity
pub mod Loop
pub mod Best
pub mod Runs
pub mod Collected
pub mod Verdict
pub mod Claiming
mod Tests
