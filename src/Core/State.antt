-- ===== src/Core/State.antt =====
-- crates/analogconnect-core/src/state.rs: the state machines behind the status that clients see.
pub mod Transition
pub mod Sync
pub mod Bluetooth
pub mod HfpControl
pub mod Call
pub mod AudioTransport
pub mod AndroidClient
pub mod Histories
pub mod Status
