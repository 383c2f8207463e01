-- ===== src/Policy.antt =====
-- packages/policy: canonical action hashes and the policy engine.
pub mod Canonicalize
pub mod Request
pub mod Grant
pub mod Scopes
pub mod Approval
pub mod Engine
pub mod Permits
pub mod GrantLaws
pub mod ScopeLaws
pub mod ParseLaws
pub mod ApprovalLaws
pub mod EngineLaws
