-- ===== src/Auth.antt =====
-- Who may speak to the broker: apps/broker/src/auth.ts.
pub mod Hello
pub mod HelloLaws
pub mod Replay
pub mod Browser
pub mod BrowserLaws
mod Tests
