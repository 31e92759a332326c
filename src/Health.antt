-- ===== src/Health.antt =====
-- The health checks of the services: internal/pkg/health/enhanced.go, and RegisterHealthEndpoints of
-- internal/pkg/middleware/unified.go.
pub mod Checks
pub mod Endpoints
pub mod Laws
pub mod Unordered
