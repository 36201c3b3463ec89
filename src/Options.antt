-- ===== src/Options.antt =====
-- client.go, request.go and pkg/client/options.go: the options of clients and requests.
pub mod Client
pub mod Timeout
mod Tests
