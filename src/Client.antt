-- ===== src/Client.antt =====
-- pkg/client/client.go and pkg/client/multi.go: a client, its routing of messages, and multi requests.
pub mod Creation
pub mod Routing
pub mod Multi
pub mod Order
mod Tests
