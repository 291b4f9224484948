-- ===== src/Paths.antt =====
-- Lexical paths (src/pathx.rs).
pub mod Lexical
pub mod Inside
mod Tests
