-- ===== src/Broker.antt =====
-- apps/broker: the broker's state machine and what it uses.
pub mod Constants
pub mod Records
pub mod Lifecycle
pub mod Requests
pub mod Capability
pub mod Signature
pub mod Grants
pub mod Commands
pub mod Dispatch
pub mod Run
pub mod Inversion
pub mod Access
pub mod Authority
pub mod Consent
pub mod Bounds
pub mod Delivery
pub mod Endings
pub mod Revocation
pub mod Departure
