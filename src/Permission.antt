-- ===== src/Permission.antt =====
-- src/agent/permission.rs: the admission of a tool call, and what a human's answer grants.
-- The file system and the JSON reader are not modelled: what they find (the control file that the
-- call would write, the directory outside, the hidden path, the call's subject) are arguments.
pub mod Types
pub mod Decide
pub mod Answers
pub mod Again
pub mod Admit
pub mod Grant
mod Tests
