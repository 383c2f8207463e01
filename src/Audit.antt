-- ===== src/Audit.antt =====
-- The audit log: apps/broker/src/audit.ts.
pub mod Record
pub mod Segment
pub mod LineLaws
pub mod SegmentLaws
pub mod ChainLaws
mod Tests
