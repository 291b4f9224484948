-- ===== src/Escalation.antt =====
-- src/escalation.rs: the prompts that wait for a human, their claims and their resolution. An
-- instant is a number of nanoseconds, and the answer that a waiter receives is found by its
-- generation.
pub mod Prompts
pub mod Manager
pub mod Claims
pub mod Ledger
pub mod Once
pub mod Closes
mod Tests
