-- ===== src/Nats/Laws.antt =====
-- What holds of the NATS client and its consumers.
pub mod Batches
pub mod Streams
pub mod Consumers
pub mod Defaults
pub mod Opening
pub mod Startup
pub mod Subscriptions
pub mod Publishing
