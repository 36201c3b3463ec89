-- ===== src/Stream.antt =====
-- internal/stream/stream.go: one end of a stream.
pub mod State
pub mod Steps
pub mod Opening
pub mod Closing
pub mod Acks
pub mod Invariant
pub mod SafeSteps
pub mod Reach
pub mod Results
pub mod Sending
mod Tests
