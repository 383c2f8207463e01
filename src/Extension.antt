-- ===== src/Extension.antt =====
-- The browser extension: apps/extension/src.
pub mod Security
pub mod SecurityLaws
pub mod Loopback
mod Tests
