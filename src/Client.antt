-- ===== src/Client.antt =====
-- pkg/client: the client's side of a request.
pub mod Select
pub mod Wait
pub mod Rpc
pub mod Calls
pub mod Outcomes
pub mod Taken
pub mod Answers
pub mod Streams
pub mod Opens
pub mod Options
pub mod Chosen
pub mod Multi
pub mod Collected
pub mod Routing
pub mod Routed
mod StreamTests
