-- ===== src/Redis.antt =====
-- pkg/bus/redisbus: the bus over Redis pub/sub. The Redis client is the environment: whether a
-- subscription call fails, and when one of the workers runs, is its choice.
pub mod Transport
pub mod Reconcile
pub mod Lists
pub mod Publish
mod Tests
