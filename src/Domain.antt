-- ===== src/Domain.antt =====
-- internal/pkg/models: the data that the services exchange and store.
pub mod Places
pub mod Matches
pub mod Events
pub mod Floats
pub mod Geo
pub mod Rides
pub mod Users
