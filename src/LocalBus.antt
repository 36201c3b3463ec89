-- ===== src/LocalBus.antt =====
-- internal/bus/bus_local.go: the message bus of one process.
pub mod Subscription
pub mod SubList
pub mod Bus
pub mod Slots
pub mod Invariant
pub mod Reach
pub mod Queue
pub mod Turns
pub mod Delivery
pub mod Membership
mod Tests
