-- ===== src/Broker/Bounds.antt =====
-- The resource limits of apps/broker/src/broker-state.ts, that is of constants.ts, as an invariant of
-- `BrokerState`, and that every operation keeps it.
pub mod Tame
pub mod Monad
pub mod Endings
pub mod Requests
pub mod Grants
pub mod Commands
pub mod Finish
pub mod Run
