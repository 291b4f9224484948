-- ===== src/Shell.antt =====
-- src/shellcmd.rs: how a shell command is read for the permission check. Nothing is executed.
pub mod Words
pub mod Prefix
pub mod Segments
pub mod Launch
pub mod Commands
pub mod Grants
pub mod Refusal
pub mod Launched
pub mod Distinct
mod Tests
