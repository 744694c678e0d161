-- ===== src/Daemon.antt =====
-- crates/analogconnectd: the daemon.
pub mod Auth
pub mod Hfp
pub mod Audio
pub mod Hex
pub mod MediaAuth
pub mod Messages
pub mod Ancs
pub mod AncsGroups
pub mod Conversations
pub mod Server
