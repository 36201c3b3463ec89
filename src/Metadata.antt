-- ===== src/Metadata.antt =====
-- pkg/metadata/metadata.go: the metadata of requests.
pub mod Outgoing
pub mod Append
mod Tests
