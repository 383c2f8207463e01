-- ===== src/Wire.antt =====
-- How messages travel: apps/broker/src/native-framing.ts and apps/broker/src/wire.ts.
pub mod Stream
pub mod Chunks
pub mod Native
pub mod NativeLaws
pub mod Lines
pub mod LineLaws
pub mod Peer
pub mod Once
pub mod Soundness
pub mod PeerLaws
mod Tests
