-- ===== src/Protocol.antt =====
-- packages/protocol: the data that the broker, the policy engine and the extension exchange, and
-- the checks of their schemas.
pub mod Text
pub mod Platform
pub mod Primitives
pub mod Order
pub mod Actions
pub mod Access
pub mod Decision
