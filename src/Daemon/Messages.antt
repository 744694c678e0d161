-- ===== src/Daemon/Messages.antt =====
-- crates/analogconnectd/src/messages.rs: synchronisation of messages, and messages sent.
pub mod Operations
pub mod Scheduler
pub mod Coordinator
