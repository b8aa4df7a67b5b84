-- ===== src/Interceptors.antt =====
-- internal/interceptors/interceptor.go: chains of interceptors, and that of the test bus in
-- pkg/bus/interceptor.go.
pub mod Chain
pub mod Nesting
mod Tests
