-- ===== src/Policy/Engine.antt =====
-- packages/policy/src/engine.ts: `evaluatePolicy` and `assertAuthorized`.
use tabgrant.Common.{
  Bool, false, ◌≡◌, Bool-cases, not, ◌⊎◌, inl, inr, Option, none, some, if◌then◌else◌,
}
use tabgrant.Protocol.Platform.{Platform}
use tabgrant.Protocol.Primitives.{r2, r3, r4}
use tabgrant.Protocol.Actions.{
  Action, action_kind, action_schema, action_schema_throws, approval_schema,
}
use tabgrant.Protocol.Access.{Capability, PolicyLease, capability_schema, lease_schema}
use tabgrant.Protocol.Decision.{
  allow, allow_prepare, deny, capability_invalid, capability_scope_denied, stale_element_reference,
  unknown_action, prepare_required, risk_not_supported, PolicyDecision,
}
use tabgrant.Policy.Request.{
  Unknown, malformed, shaped, safe_parse, risk_by_action, action_kind_of, forbidden_code_for_kind,
  deny_decision, allow_decision, allow_prepare_decision, by_risk, Phase, PolicyEvaluationRequest,
  prepare, commit,
}
use tabgrant.Policy.Grant.{validate_grant}
use tabgrant.Policy.Scopes.{stale_reference, data_class_allowed, required_scope_present}
use tabgrant.Policy.Approval.{validate_approval}

-- `failure ?? decision`
abbrev pub unless_failed : Option PolicyDecision → PolicyDecision → PolicyDecision
unless_failed none d = d
unless_failed (some failure) d = failure

-- The part of `evaluatePolicy` behind the scope checks: the decision by risk and phase.
unfoldable pub decide_by_risk :
    Platform → PolicyEvaluationRequest → Action → Capability → Phase → PolicyDecision
unfolding risk_by_action
decide_by_risk p q a c prepare =
    by_risk (risk_by_action a) (allow_prepare_decision p a r2) (allow_prepare_decision p a r3) (
      allow_decision p a (risk_by_action a)
        "capability, lease, context, reference, and scope validated")
decide_by_risk p q a c commit =
    by_risk (risk_by_action a)
      (unless_failed (validate_approval p (safe_parse (approval_schema p) q.approval) a c q.context)
        (allow_decision p a r2 "bound one-time approval and state witness validated"))
      (deny_decision (action_kind a) r3 risk_not_supported "R3 commit is not supported in v0.1")
      (deny_decision (action_kind a) (risk_by_action a) prepare_required
        "R0/R1 actions execute through prepare evaluation only")

-- The part of `evaluatePolicy` on parsed values.
unfoldable pub evaluate_parsed :
    Platform → PolicyEvaluationRequest → Action → Capability → PolicyLease → PolicyDecision
evaluate_parsed p q a c l = unless_failed (validate_grant c l q.context (action_kind a)) (
    if stale_reference a q.context
    then deny_decision (action_kind a) r4 stale_element_reference
        "element reference is stale or belongs to a different context"
    else if not (data_class_allowed a c)
    then deny_decision (action_kind a) r4 capability_scope_denied
        "form data class exceeds the capability grant"
    else if not (required_scope_present p a c)
    then deny_decision (action_kind a) r4 capability_scope_denied "required action scope is absent"
    else decide_by_risk p q a c q.phase)

-- `evaluatePolicy` where parsing the action does not throw.
unfoldable pub evaluate_policy : Platform → PolicyEvaluationRequest → PolicyDecision
evaluate_policy p q = elim (forbidden_code_for_kind p (action_kind_of q.action)) [
  | some code ↦
      deny_decision (action_kind_of q.action) r4 code
        "the requested browser authority is prohibited"
  | none ↦ elim (safe_parse (action_schema p) q.action) [
    | none ↦
        deny_decision (action_kind_of q.action) r4 unknown_action
          "unknown or malformed actions are denied by default"
    | some a ↦ elim (safe_parse (capability_schema p) q.capability) [
      | none ↦
          deny_decision (action_kind a) r4 capability_invalid
            "capability did not pass strict schema validation"
      | some c ↦ elim (safe_parse (lease_schema p) q.lease) [
        | none ↦
            deny_decision (action_kind a) r4 capability_invalid
              "lease did not pass strict schema validation"
        | some l ↦ evaluate_parsed p q a c l
      ]
    ]
  ]
]

abbrev parse_throws : Platform → Unknown Action → Bool
parse_throws p (malformed kind) = false
parse_throws p (shaped a) = action_schema_throws p a

-- `evaluatePolicy`; `none` is the TypeError that parsing the action throws, of an action that has the shape of a
-- navigation, which is no prohibited kind.
unfoldable pub evaluate_policy_or_throw : Platform → PolicyEvaluationRequest → Option PolicyDecision
unfolding action_schema_throws
evaluate_policy_or_throw p q = if parse_throws p q.action then none else some (evaluate_policy p q)

-- `inl` is the `PolicyAuthorizationError` with its decision.
abbrev pub assert_decision : PolicyDecision → PolicyDecision ⊎ PolicyDecision
assert_decision decision = elim decision.outcome [
  | deny ↦ inl decision
  | allow ↦ inr decision
  | allow_prepare ↦ inr decision
]

unfoldable pub assert_authorized :
    Platform → PolicyEvaluationRequest → Option (PolicyDecision ⊎ PolicyDecision)
assert_authorized p q = elim (evaluate_policy_or_throw p q) [
  | none ↦ none
  | some decision ↦ some (assert_decision decision)
]

pub evaluate_policy_or_throw-some :
    (p : Platform) (q : PolicyEvaluationRequest) (d : PolicyDecision)
    → evaluate_policy_or_throw p q ≡ some d
    → evaluate_policy p q ≡ d
unfolding evaluate_policy_or_throw
evaluate_policy_or_throw-some p q d e = elim (Bool-cases (parse_throws p q.action)) [
  | inl thrown ↦ absurd (cc (rw (evaluate_policy_or_throw, thrown) at e))
  | inr parsed ↦ cc (rw (evaluate_policy_or_throw, parsed) at e)
]
