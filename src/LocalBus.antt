-- ===== src/LocalBus.antt =====
-- pkg/bus/localbus: the bus within one process.
pub mod Transport
pub mod Dispatch
pub mod Counts
mod Tests
