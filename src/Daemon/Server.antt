-- ===== src/Daemon/Server.antt =====
-- crates/analogconnectd/src/lib.rs: the handlers of the daemon's HTTP and WebSocket interface.
pub mod Stream
pub mod Guards
pub mod Pages
pub mod Messages
pub mod Runtime
pub mod Calls
