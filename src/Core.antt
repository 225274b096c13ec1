-- ===== src/Core.antt =====
-- The shared model of the control plane, crates/c6-core/src.
pub mod Permissions
pub mod Credentials
pub mod Manifest
pub mod Tests
