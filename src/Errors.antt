-- ===== src/Errors.antt =====
-- errors.go: the error codes, their translations to HTTP, gRPC and twirp, and the error values.
-- A code is a Go string; here the named codes are constructors and `other` holds any other string.
pub mod Codes
pub mod Values
pub mod Wire
mod Tests
