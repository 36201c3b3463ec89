-- ===== src/Retry.antt =====
-- pkg/middleware/retry.go: the retries of a call that fails.
pub mod Loop
pub mod Attempts
pub mod Endless
mod Tests
