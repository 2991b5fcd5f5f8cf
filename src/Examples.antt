-- ===== src/Examples.antt =====
-- A small platform that keeps every promise, and the theorems applied on it.
pub mod Codec
pub mod Toy
pub mod KeySets
pub mod Rotation
pub mod Sessions
pub mod Tokens
pub mod Files
pub mod Requests
pub mod Exchanges
pub mod Replays
pub mod Revocations
pub mod Startup
pub mod Middleware
pub mod Concurrent
pub mod Succeeding
pub mod Opens
