-- ===== src/CloudCore.antt =====
-- The wire contract of Cresix Cloud, crates/c6-cloud-core/src.
pub mod Token
pub mod Identifiers
pub mod Relay
