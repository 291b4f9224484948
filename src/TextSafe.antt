-- ===== src/TextSafe.antt =====
-- Text from models, files and tools, made safe for a terminal (src/textsafe.rs).
pub mod Scrub
pub mod Safety
mod Tests
