-- ===== src/Policy/Approval.antt =====
-- packages/policy/src/engine.ts: `validateApproval`; `undefined` is `none`.
use tabgrant.Common.{
  String, Bool, true, false, not, ◌||◌, List, [], ◌∷◌, Option, none, some, is_none, leb, ltb, ◌===◌,
  if◌then◌else◌,
}
use tabgrant.Protocol.Platform.{Platform}
use tabgrant.Protocol.Primitives.{r2}
use tabgrant.Protocol.Actions.{Action, action_kind, ApprovalReceipt}
use tabgrant.Protocol.Access.{Capability}
use tabgrant.Protocol.Decision.{
  prepare_required, approval_required, approval_invalid, approval_expired, approval_replayed,
  state_changed, PolicyDecision,
}
use tabgrant.Policy.Canonicalize.{hash_action}
use tabgrant.Policy.Request.{deny_decision, PreparedActionState, PolicyContext}
use tabgrant.Policy.Grant.{is_true}

-- `pairs.some(([actual, expected]) => expected === undefined || actual !== expected)`
unfoldable pub some_unmet : List (String × Option String) → Bool
some_unmet [] = false
some_unmet ((actual, none) ∷ pairs) = true
some_unmet ((actual, some expected) ∷ pairs) = not (actual === expected) || some_unmet pairs

abbrev pub approval_pairs :
    Platform
    → ApprovalReceipt
    → PreparedActionState
    → Action
    → Capability
    → PolicyContext
    → List (String × Option String)
approval_pairs p r prepared a c x =
    (r.prepare_id, some prepared.prepare_id)
    ∷ (r.action_hash, some (hash_action p a))
    ∷ (r.action_hash, some prepared.action_hash)
    ∷ (r.state_witness_hash, some prepared.state_witness_hash)
    ∷ (r.state_witness_hash, x.state_witness_hash)
    ∷ (r.client_id, some x.client_id)
    ∷ (r.task_id, some x.task_id)
    ∷ (r.tab_id, some x.tab_id)
    ∷ (r.document_id, some x.document_id)
    ∷ (r.top_level_origin, some x.top_level_origin)
    ∷ (r.policy_version, some c.policy_version)
    ∷ []

unfoldable pub check_receipt :
    Platform
    → ApprovalReceipt
    → PreparedActionState
    → Action
    → Capability
    → PolicyContext
    → Option PolicyDecision
check_receipt p r prepared a c x =
    if not (is_none r.consumed_at)
    then some
        (deny_decision (action_kind a) r2 approval_replayed "approval receipt was already consumed")
    else if ltb x.now r.issued_at || leb r.expires_at x.now
    then some (
        deny_decision (action_kind a) r2 approval_expired "approval receipt is not currently valid")
    else if some_unmet (approval_pairs p r prepared a c x)
    then some (
        deny_decision (action_kind a) r2 state_changed
          "prepared action, state witness, or approval context changed")
    else if ltb r.verified_at r.issued_at || ltb r.expires_at r.verified_at
    then some (
        deny_decision (action_kind a) r2 approval_invalid
          "user-presence proof is outside approval lifetime")
    else none

abbrev approval_missing : Action → PolicyDecision
approval_missing a =
    deny_decision (action_kind a) r2 approval_required "a verified approval receipt is required"

unfoldable pub validate_approval :
    Platform → Option ApprovalReceipt → Action → Capability → PolicyContext → Option PolicyDecision
unfolding check_receipt
validate_approval p approval a c x = elim x.prepared [
  | none ↦ some (
      deny_decision (action_kind a) r2 prepare_required
        "commit is not bound to a stored prepared action")
  | some prepared ↦ elim approval [
    | none ↦ some (approval_missing a)
    | some r ↦
        if not (is_true x.approval_signature_verified)
        then some (approval_missing a)
        else check_receipt p r prepared a c x
  ]
]
