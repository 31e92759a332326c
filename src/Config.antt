-- ===== src/Config.antt =====
-- The configuration of the services: internal/pkg/models/config.go and
-- internal/pkg/config/config.go.
pub mod Model
pub mod Load
pub mod Laws
