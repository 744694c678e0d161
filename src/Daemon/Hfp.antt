-- ===== src/Daemon/Hfp.antt =====
-- crates/analogconnectd/src/hfp.rs: call control.
pub mod Aggregate
pub mod AtBackend
pub mod Controller
