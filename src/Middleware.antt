-- ===== src/Middleware.antt =====
-- The middleware of the HTTP servers: internal/pkg/middleware/unified.go, with the contexts and the
-- tracers that it uses.
pub mod Keys
pub mod Capture
pub mod Contexts
pub mod Tracing
pub mod Recovery
pub mod Laws
