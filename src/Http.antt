-- ===== src/Http.antt =====
-- The HTTP client of internal/pkg/http and the gateways that use it.
pub mod Client
pub mod Responses
pub mod Parse
pub mod Gateways
pub mod Routes
pub mod Laws
