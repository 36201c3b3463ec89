-- ===== src/Nats.antt =====
-- internal/bus/bus_nats.go: the message bus over NATS.
pub mod Router
pub mod Bus
pub mod Keys
pub mod Live
pub mod Preserved
mod Tests
