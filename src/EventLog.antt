-- ===== src/EventLog.antt =====
-- The event log (src/eventlog.rs), and the clients that its commits and its history feed
-- (src/daemon/hub.rs).
pub mod Store
pub mod Numbers
pub mod Transactions
pub mod Commits
pub mod Serves
pub mod Clients
pub mod Follow
pub mod Join
pub mod Batches
pub mod Runs
mod Tests
