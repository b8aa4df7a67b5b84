-- ===== src/Server.antt =====
-- pkg/server: the handling of requests and the life of a handler.
pub mod Respond
pub mod Answers
pub mod Handle
pub mod Serving
pub mod Draining
pub mod Streams
pub mod Opening
pub mod Ending
pub mod Handlers
mod Table
pub mod Running
pub mod Registration
mod StreamTests
mod Tests
