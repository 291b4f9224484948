-- ===== src/Agent.antt =====
-- The agents of a channel (src/agent).
pub mod Types
pub mod Payloads
pub mod Requests
pub mod Turn
pub mod Fold
pub mod Ledger
pub mod Forget
pub mod Events
pub mod Narrow
pub mod Replies
mod Tests
