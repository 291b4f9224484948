-- ===== src/Daemon.antt =====
-- The owner daemon (src/daemon).
pub mod Queue
