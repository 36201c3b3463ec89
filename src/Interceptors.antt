-- ===== src/Interceptors.antt =====
-- internal/interceptors/interceptor.go: the chains of interceptors.
pub mod Chain
pub mod Order
pub mod Once
mod Tests
