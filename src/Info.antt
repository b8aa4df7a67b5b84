-- ===== src/Info.antt =====
-- pkg/info: the methods of a service and the names of the channels their messages travel on.
pub mod Utf8
pub mod Channels
pub mod Sanitize
pub mod Keys
pub mod Requests
mod Tests
