-- ===== src/Config.antt =====
-- The settings of the app: domain/config.rs and services/config_service.rs.
pub mod Domain
pub mod Defaults
pub mod Rules
pub mod Service
pub mod Normal
pub mod Reload
mod Examples
