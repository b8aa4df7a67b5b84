-- ===== src/Nats.antt =====
-- pkg/bus/natsbus: the bus over NATS, where one NATS subscription serves many local channels.
pub mod Router
mod Table
mod Laws
pub mod Refinement
mod Tests
