-- ===== src/Policy/Grant.antt =====
-- packages/policy/src/engine.ts: `contextMismatch` and `validateGrant`; `undefined` is `none`.
use tabgrant.Common.{
  ◌+◌, String, Bool, true, false, not, ◌||◌, List, [], ◌∷◌, Option, none, some, leb, ltb, ◌==◌,
  ◌===◌, if◌then◌else◌,
}
use tabgrant.Protocol.Primitives.{r4}
use tabgrant.Protocol.Access.{Capability, LeaseState, active, revoked, PolicyLease}
use tabgrant.Protocol.Decision.{
  capability_invalid, capability_expired, capability_context_mismatch, lease_expired, lease_revoked,
  enterprise_policy_denied, rate_limited, PolicyDecision,
}
use tabgrant.Policy.Request.{deny_decision, PolicyContext}

-- `pairs.some(([actual, wanted]) => actual !== wanted)`
unfoldable pub some_differ : List (String × String) → Bool
some_differ [] = false
some_differ ((actual, wanted) ∷ pairs) = not (actual === wanted) || some_differ pairs

abbrev pub context_pairs : Capability → PolicyLease → PolicyContext → List (String × String)
context_pairs c l x =
    (c.client_id, x.client_id)
    ∷ (c.task_id, x.task_id)
    ∷ (c.browser_profile_instance, x.browser_profile_instance)
    ∷ (c.tab_id, x.tab_id)
    ∷ (c.document_id, x.document_id)
    ∷ (c.top_level_origin, x.top_level_origin)
    ∷ (c.audience, x.audience)
    ∷ (c.policy_version, x.policy_version)
    ∷ (l.capability_id, c.capability_id)
    ∷ (l.client_id, x.client_id)
    ∷ (l.task_id, x.task_id)
    ∷ (l.browser_profile_instance, x.browser_profile_instance)
    ∷ (l.tab_id, x.tab_id)
    ∷ (l.document_id, x.document_id)
    ∷ (l.top_level_origin, x.top_level_origin)
    ∷ []

unfoldable pub context_mismatch : Capability → PolicyLease → PolicyContext → Bool
context_mismatch c l x = some_differ (context_pairs c l x)

-- `value === true`
abbrev pub is_true : Option Bool → Bool
is_true none = false
is_true (some b) = b

abbrev pub is_revoked : LeaseState → Bool
is_revoked revoked = true
is_revoked _ = false

abbrev pub is_active : LeaseState → Bool
is_active active = true
is_active _ = false

unfoldable pub validate_grant :
    Capability → PolicyLease → PolicyContext → String → Option PolicyDecision
validate_grant c l x kind =
    if not x.capability_signature_verified
    then some (deny_decision kind r4 capability_invalid "capability signature was not verified")
    else if not (is_true x.enterprise_allowed)
    then some (
        deny_decision kind r4 enterprise_policy_denied
          "enterprise policy did not explicitly allow access")
    else if not (is_true x.rate_limit_allowed)
    then some (
        deny_decision kind r4 rate_limited
          "action budget or rate limit was not explicitly available")
    else if context_mismatch c l x
    then some (
        deny_decision kind r4 capability_context_mismatch
          "client, task, tab, document, origin, or audience changed")
    else if ltb x.now c.issued_at || leb c.expires_at x.now
    then some (deny_decision kind r4 capability_expired "capability is not currently valid")
    else if ltb l.issued_at c.issued_at
        || ltb c.expires_at l.expires_at
        || ltb c.idle_timeout_ms l.idle_timeout_ms
        || ltb c.use_limit l.remaining_uses
    then some (
        deny_decision kind r4 capability_invalid
          "lease expands the capability lifetime, idle timeout, or use budget")
    else if is_revoked l.state
    then some (deny_decision kind r4 lease_revoked "lease has been revoked")
    else if not (is_active l.state) || leb l.expires_at x.now
    then some (deny_decision kind r4 lease_expired "lease is not active")
    else if leb (l.last_used_at + l.idle_timeout_ms) x.now || l.remaining_uses == 0
    then some (deny_decision kind r4 lease_expired "lease idle timeout or use limit was reached")
    else none
