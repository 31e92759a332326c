-- ===== src/Nats.antt =====
-- The NATS client and its consumers: internal/pkg/nats.
pub mod Client
pub mod Consumer
pub mod Batch
pub mod Defaults
pub mod Setup
pub mod Publish
pub mod Delivery
pub mod Session
pub mod Subscriber
pub mod Producer
pub mod Startup
pub mod Laws
