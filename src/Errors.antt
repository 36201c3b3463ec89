-- ===== src/Errors.antt =====
-- errors.go: the error runes and their translations to HTTP, gRPC and Twirp, and the error value.
-- An `ErrorCode` is a string in the source, so a code may be any text.
pub mod Codes
pub mod Foreign
pub mod Translations
pub mod Value
pub mod Laws
mod Tests
