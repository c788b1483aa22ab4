-- ===== src/Privacy.antt =====
-- The privacy filter: apps/desktop/src-tauri/src/services/privacy_filter and
-- apps/desktop/src-tauri/src/domain/privacy.rs.
pub mod Label
pub mod Settings
pub mod Decode
pub mod Redact
pub mod Filter
pub mod Session
mod Examples
