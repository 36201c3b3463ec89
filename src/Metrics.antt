-- ===== src/Metrics.antt =====
-- pkg/middleware/metrics.go: what the interceptors for metrics tell their observer.
pub mod Observer
pub mod Counts
mod Tests
