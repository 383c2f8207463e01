-- ===== src/Daemon.antt =====
-- The broker's process: apps/broker/src/daemon.ts.
pub mod Attempts
pub mod Link
pub mod Browser
pub mod System
pub mod Witnesses
pub mod Moves
pub mod Completion
pub mod Backing
pub mod Order
pub mod Turns
pub mod Requests
pub mod Prompts
mod Tests
