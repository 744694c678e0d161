-- ===== src/Daemon/Ancs.antt =====
-- crates/analogconnectd/src/ancs_transport.rs: the client of the phone's notification service.
pub mod Attributes
pub mod Protocol
pub mod Supervisor
