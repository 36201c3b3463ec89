-- ===== src/Opening.antt =====
-- pkg/client/stream.go and pkg/server/stream.go: how a stream is opened on both sides.
pub mod Elsewhere
pub mod OpenStream
pub mod Opened
pub mod OpenRequest
pub mod Served
mod Tests
