-- ===== src/Channels.antt =====
-- pkg/info/channels.go and pkg/info/info.go: the names of the channels of a request.
pub mod Format
pub mod Names
pub mod Sanitize
pub mod Join
pub mod Keys
pub mod Server
mod Tests
