-- ===== src/Core.antt =====
-- crates/analogconnect-core: the types and state machines that the daemon builds on.
pub mod State
pub mod Hfp
pub mod Audio
