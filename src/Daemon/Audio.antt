-- ===== src/Daemon/Audio.antt =====
-- crates/analogconnectd/src/audio.rs: buffering and framing of call audio.
pub mod Jitter
pub mod Queue
pub mod Watchdog
pub mod Pcm
pub mod MediaBridge
