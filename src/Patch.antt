-- ===== src/Patch.antt =====
-- The patch tool (src/toolpatch.rs): a patch is parsed into operations, every operation is staged
-- in memory against the files it reads, and only then are files written.
pub mod Types
pub mod Parse
pub mod Lines
pub mod Disk
pub mod Stage
pub mod Write
pub mod Spec
pub mod Index
pub mod Shows
pub mod Refine
pub mod Atomic
pub mod Outcome
pub mod Run
pub mod Search
pub mod Hunks
pub mod Identity
mod Tests
