-- ===== src/Cli.antt =====
-- The command line, crates/c6-cli: its store of credentials.
pub mod StateFile
pub mod Atomic
pub mod Progress
pub mod Credential
pub mod Stored
pub mod Tests
pub mod Memory
