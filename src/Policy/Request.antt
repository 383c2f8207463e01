-- ===== src/Policy/Request.antt =====
-- packages/policy/src/engine.ts: the request that `evaluatePolicy` takes, the risk and scope tables,
-- prohibited kinds, and the decisions. A value of type `unknown` either lacks the shape that the schema
-- describes, and then only its `kind` is read, or has it, and then the schema's constraints are checked.
use tabgrant.Common.{
  ℕ, String, Bool, true, false, List, [], ◌∷◌, Option, none, some, any, if◌then◌else◌,
}
use tabgrant.Protocol.Text.{includes_text}
use tabgrant.Protocol.Platform.{Platform}
use tabgrant.Protocol.Primitives.{
  RiskLevel, r0, r1, r2, r3, FixedScopeKind, page_a11y_read, page_screenshot_read, page_scroll,
  page_highlight, page_click_reversible, page_form_draft,
}
use tabgrant.Protocol.Actions.{
  Action, a11y_read, screenshot_read, scroll, highlight, click_reversible, form_draft, navigate,
  form_submit, content_publish, message_send, data_delete, permission_change, financial_transaction,
  oauth_consent, action_kind, ApprovalReceipt,
}
use tabgrant.Protocol.Access.{Capability, PolicyLease}
use tabgrant.Protocol.Decision.{
  BrokerErrorCode, secret_access_forbidden, cookie_access_forbidden, arbitrary_code_forbidden,
  cdp_access_forbidden, trusted_user_presence, one_time_receipt, state_witness, idempotency_key,
  manual_user_completion, allow, allow_prepare, deny, PolicyDecision,
}
use tabgrant.Policy.Canonicalize.{hash_action}

pub record PreparedActionState : Type 0 where
  pub prepare_id : String
  pub action_hash : String
  pub state_witness_hash : String

pub record PolicyContext : Type 0 where
  pub now : ℕ
  pub client_id : String
  pub task_id : String
  pub browser_profile_instance : String
  pub tab_id : String
  pub document_id : String
  pub top_level_origin : String
  pub audience : String
  pub policy_version : String
  pub current_dom_epoch : Option ℕ
  pub capability_signature_verified : Bool
  pub approval_signature_verified : Option Bool
  pub enterprise_allowed : Option Bool
  pub rate_limit_allowed : Option Bool
  pub state_witness_hash : Option String
  pub prepared : Option PreparedActionState

pub data Phase : Type 0 where
  prepare commit : Phase

pub data Unknown (A : Type 0) : Type 0 where
  malformed : Option String → Unknown A
  shaped : A → Unknown A

pub record PolicyEvaluationRequest : Type 0 where
  pub phase : Phase
  pub action : Unknown Action
  pub capability : Unknown Capability
  pub lease : Unknown PolicyLease
  pub approval : Unknown ApprovalReceipt
  pub context : PolicyContext

-- `schema.safeParse(value)`
abbrev pub safe_parse : {A : Type 0} → (A → Bool) → Unknown A → Option A
safe_parse schema (malformed kind) = none
safe_parse schema (shaped a) = if schema a then some a else none

unfoldable pub risk_by_action : Action → RiskLevel
risk_by_action (a11y_read n) = r0
risk_by_action screenshot_read = r0
risk_by_action (scroll x y) = r0
risk_by_action (highlight target) = r0
risk_by_action (click_reversible target) = r1
risk_by_action (form_draft fields) = r1
risk_by_action (navigate address) = r1
risk_by_action (form_submit payload) = r2
risk_by_action (content_publish payload) = r3
risk_by_action (message_send payload) = r3
risk_by_action (data_delete payload) = r3
risk_by_action (permission_change payload) = r3
risk_by_action (financial_transaction payload) = r3
risk_by_action (oauth_consent payload) = r3

unfoldable pub fixed_scope_by_action : Action → Option FixedScopeKind
fixed_scope_by_action (a11y_read n) = some page_a11y_read
fixed_scope_by_action screenshot_read = some page_screenshot_read
fixed_scope_by_action (scroll x y) = some page_scroll
fixed_scope_by_action (highlight target) = some page_highlight
fixed_scope_by_action (click_reversible target) = some page_click_reversible
fixed_scope_by_action (form_draft fields) = some page_form_draft
fixed_scope_by_action _ = none

unfoldable pub action_kind_of : Unknown Action → String
action_kind_of (malformed none) = "unknown"
action_kind_of (malformed (some kind)) = kind
action_kind_of (shaped a) = action_kind a

-- The pieces of a prohibited kind, with the code for each.
abbrev secret_pieces : List String
secret_pieces = "password" ∷ "credential.read" ∷ "token.read" ∷ "secret" ∷ "otp" ∷ "passkey" ∷ []

abbrev cdp_pieces : List String
cdp_pieces = "cdp" ∷ "devtools" ∷ "debugger" ∷ []

abbrev code_pieces : List String
code_pieces = "javascript" ∷ "script.execute" ∷ "eval" ∷ "shell" ∷ "native.command" ∷ []

unfoldable pub forbidden_code_for_kind : Platform → String → Option BrokerErrorCode
unfolding includes_text
forbidden_code_for_kind p kind =
    let lower = p.to_lower_case kind in
    if includes_text lower "cookie"
    then some cookie_access_forbidden
    else if any (includes_text lower) secret_pieces
    then some secret_access_forbidden
    else if any (includes_text lower) cdp_pieces
    then some cdp_access_forbidden
    else if any (includes_text lower) code_pieces
    then some arbitrary_code_forbidden
    else none

abbrev pub deny_decision : String → RiskLevel → BrokerErrorCode → String → PolicyDecision
deny_decision kind risk code reason = record {
  outcome = deny;
  risk = risk;
  action_kind = kind;
  action_hash = none;
  error_code = some code;
  reason = reason;
  requirements = [];
}

unfoldable pub allow_decision : Platform → Action → RiskLevel → String → PolicyDecision
allow_decision p a risk reason = record {
  outcome = allow;
  risk = risk;
  action_kind = action_kind a;
  action_hash = some (hash_action p a);
  error_code = none;
  reason = reason;
  requirements = [];
}

abbrev is_r2 : RiskLevel → Bool
is_r2 r2 = true
is_r2 _ = false

unfoldable pub allow_prepare_decision : Platform → Action → RiskLevel → PolicyDecision
allow_prepare_decision p a risk = record {
  outcome = allow_prepare;
  risk = risk;
  action_kind = action_kind a;
  action_hash = some (hash_action p a);
  error_code = none;
  reason =
      if is_r2 risk
      then "action may be prepared but requires a bound one-time approval before commit"
      else "v0.1 permits preview only; the user must complete this action manually";
  requirements =
      if is_r2 risk
      then trusted_user_presence ∷ one_time_receipt ∷ state_witness ∷ idempotency_key ∷ []
      else manual_user_completion ∷ state_witness ∷ idempotency_key ∷ [];
}

abbrev pub by_risk {ℓ} : {A : Type ℓ} → RiskLevel → A → A → A → A
by_risk r2 on_r2 on_r3 otherwise = on_r2
by_risk r3 on_r2 on_r3 otherwise = on_r3
by_risk _ on_r2 on_r3 otherwise = otherwise
