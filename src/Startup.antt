-- ===== src/Startup.antt =====
-- The start of the process: src/main.rs with src/infra/orchestrator.rs, src/domain/geo.rs,
-- src/infra/geoip.rs and src/transport/http/handlers.rs.
pub mod Bootstrap
pub mod Location
pub mod Process
pub mod Status
