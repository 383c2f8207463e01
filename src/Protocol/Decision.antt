-- ===== src/Protocol/Decision.antt =====
-- packages/protocol/src/policy.ts: policy decisions and their error codes.
use tabgrant.Common.{
  String, Bool, true, ◌&&◌, List, Option, none, some, is_none, is_some, length, leb,
}
use tabgrant.Protocol.Text.{length_within, digest_schema}
use tabgrant.Protocol.Primitives.{RiskLevel}

pub data BrokerErrorCode : Type 0 where
  invalid_request unsupported_protocol capability_missing capability_invalid : BrokerErrorCode
  capability_expired capability_revoked capability_scope_denied : BrokerErrorCode
  capability_context_mismatch lease_expired lease_revoked stale_element_reference : BrokerErrorCode
  unknown_action action_forbidden secret_access_forbidden cookie_access_forbidden : BrokerErrorCode
  arbitrary_code_forbidden cdp_access_forbidden prepare_required approval_required : BrokerErrorCode
  approval_invalid approval_expired approval_replayed state_changed : BrokerErrorCode
  risk_not_supported policy_unavailable enterprise_policy_denied rate_limited : BrokerErrorCode
  internal_error : BrokerErrorCode

-- The text of an error code on the wire.
abbrev pub error_code_text : BrokerErrorCode → String
error_code_text invalid_request = "INVALID_REQUEST"
error_code_text unsupported_protocol = "UNSUPPORTED_PROTOCOL"
error_code_text capability_missing = "CAPABILITY_MISSING"
error_code_text capability_invalid = "CAPABILITY_INVALID"
error_code_text capability_expired = "CAPABILITY_EXPIRED"
error_code_text capability_revoked = "CAPABILITY_REVOKED"
error_code_text capability_scope_denied = "CAPABILITY_SCOPE_DENIED"
error_code_text capability_context_mismatch = "CAPABILITY_CONTEXT_MISMATCH"
error_code_text lease_expired = "LEASE_EXPIRED"
error_code_text lease_revoked = "LEASE_REVOKED"
error_code_text stale_element_reference = "STALE_ELEMENT_REFERENCE"
error_code_text unknown_action = "UNKNOWN_ACTION"
error_code_text action_forbidden = "ACTION_FORBIDDEN"
error_code_text secret_access_forbidden = "SECRET_ACCESS_FORBIDDEN"
error_code_text cookie_access_forbidden = "COOKIE_ACCESS_FORBIDDEN"
error_code_text arbitrary_code_forbidden = "ARBITRARY_CODE_FORBIDDEN"
error_code_text cdp_access_forbidden = "CDP_ACCESS_FORBIDDEN"
error_code_text prepare_required = "PREPARE_REQUIRED"
error_code_text approval_required = "APPROVAL_REQUIRED"
error_code_text approval_invalid = "APPROVAL_INVALID"
error_code_text approval_expired = "APPROVAL_EXPIRED"
error_code_text approval_replayed = "APPROVAL_REPLAYED"
error_code_text state_changed = "STATE_CHANGED"
error_code_text risk_not_supported = "RISK_NOT_SUPPORTED"
error_code_text policy_unavailable = "POLICY_UNAVAILABLE"
error_code_text enterprise_policy_denied = "ENTERPRISE_POLICY_DENIED"
error_code_text rate_limited = "RATE_LIMITED"
error_code_text internal_error = "INTERNAL_ERROR"

pub data PolicyRequirement : Type 0 where
  trusted_user_presence one_time_receipt state_witness : PolicyRequirement
  idempotency_key manual_user_completion : PolicyRequirement

pub data Outcome : Type 0 where
  allow allow_prepare deny : Outcome

pub record PolicyDecision : Type 0 where
  pub outcome : Outcome
  pub risk : RiskLevel
  pub action_kind : String
  pub action_hash : Option String
  pub error_code : Option BrokerErrorCode
  pub reason : String
  pub requirements : List PolicyRequirement

-- `superRefine`: an error code for a denial, and for nothing else.
abbrev pub error_code_fits : Outcome → Option BrokerErrorCode → Bool
error_code_fits deny code = is_some code
error_code_fits _ code = is_none code

abbrev optional_digest : Option String → Bool
optional_digest none = true
optional_digest (some h) = digest_schema h

unfoldable pub decision_schema : PolicyDecision → Bool
unfolding length_within digest_schema
decision_schema d =
    length_within 1 128 d.action_kind
    && optional_digest d.action_hash
    && length_within 1 1000 d.reason
    && leb (length d.requirements) 8
    && error_code_fits d.outcome d.error_code
