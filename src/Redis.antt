-- ===== src/Redis.antt =====
-- internal/bus/bus_redis.go: the message bus over Redis.
pub mod SubList
pub mod State
pub mod Steps
pub mod Worker
pub mod Sets
pub mod Touches
pub mod Moves
pub mod Does
pub mod Sync
pub mod Awake
pub mod Counts
pub mod Kept
pub mod Owned
pub mod Reader
pub mod Lock
pub mod Quiet
pub mod Outbox
pub mod Refine
mod Tests
