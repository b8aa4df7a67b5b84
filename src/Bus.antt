-- ===== src/Bus.antt =====
-- pkg/bus: what a message bus does around a transport, which carries bytes.
pub mod Compression
pub mod Gunzip
pub mod Serialization
pub mod Forward
pub mod Arrival
mod Tests
