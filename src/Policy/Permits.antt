-- ===== src/Policy/Permits.antt =====
-- What the policy engine of packages/policy/src/engine.ts promises, in propositions that do not
-- mention its tests: when a grant holds, when an action is in scope, when an approval is bound.
use tabgrant.Common.{
  ℕ, ◌+◌, ◌≤◌, ◌<◌, ◌≡◌, ◌⊎◌, String, true, List, Option, some, none, All, Exists,
}
use tabgrant.Protocol.Platform.{Platform, Url}
use tabgrant.Protocol.Primitives.{
  r0, r1, r2, r3, Scope, fixed, allowed_origin, action_prepare, FixedScopeKind,
  page_navigate_same_origin,
}
use tabgrant.Protocol.Actions.{
  ElementReference, FormField, Action, form_draft, navigate, action_kind, action_schema,
  ApprovalReceipt, approval_schema,
}
use tabgrant.Protocol.Access.{Capability, active, PolicyLease, capability_schema, lease_schema}
use tabgrant.Policy.Canonicalize.{hash_action}
use tabgrant.Policy.Request.{
  PreparedActionState, PolicyContext, PolicyEvaluationRequest, prepare, commit, shaped,
  risk_by_action, fixed_scope_by_action, forbidden_code_for_kind,
}
use tabgrant.Policy.Scopes.{references_for}

-- The capability and the lease name the client, task, browser, tab, document and origin of the call.
pub record SameContext (c : Capability) (l : PolicyLease) (x : PolicyContext) : Type 0 where
  pub client : c.client_id ≡ x.client_id
  pub task : c.task_id ≡ x.task_id
  pub browser : c.browser_profile_instance ≡ x.browser_profile_instance
  pub tab : c.tab_id ≡ x.tab_id
  pub document : c.document_id ≡ x.document_id
  pub origin : c.top_level_origin ≡ x.top_level_origin
  pub audience : c.audience ≡ x.audience
  pub policy : c.policy_version ≡ x.policy_version
  pub lease_capability : l.capability_id ≡ c.capability_id
  pub lease_client : l.client_id ≡ x.client_id
  pub lease_task : l.task_id ≡ x.task_id
  pub lease_browser : l.browser_profile_instance ≡ x.browser_profile_instance
  pub lease_tab : l.tab_id ≡ x.tab_id
  pub lease_document : l.document_id ≡ x.document_id
  pub lease_origin : l.top_level_origin ≡ x.top_level_origin

-- The lease takes nothing beyond the capability.
pub record Attenuates (c : Capability) (l : PolicyLease) : Type 0 where
  pub starts_later : c.issued_at ≤ l.issued_at
  pub ends_earlier : l.expires_at ≤ c.expires_at
  pub idles_less : l.idle_timeout_ms ≤ c.idle_timeout_ms
  pub uses_less : l.remaining_uses ≤ c.use_limit

pub record GrantHolds (c : Capability) (l : PolicyLease) (x : PolicyContext) : Type 0 where
  pub signed : x.capability_signature_verified ≡ true
  pub enterprise : x.enterprise_allowed ≡ some true
  pub rate : x.rate_limit_allowed ≡ some true
  pub context : SameContext c l x
  pub begun : c.issued_at ≤ x.now
  pub unexpired : x.now < c.expires_at
  pub attenuates : Attenuates c l
  pub lease_active : l.state ≡ active
  pub lease_unexpired : x.now < l.expires_at
  pub lease_busy : x.now < l.last_used_at + l.idle_timeout_ms
  pub uses_left : 0 < l.remaining_uses

-- A caller that knows the document's epoch wants a reference of that epoch.
abbrev pub SameEpoch : Option ℕ → ℕ → Type 0
SameEpoch none epoch = Unit
SameEpoch (some current) epoch = epoch ≡ current

-- The element that an action names is of the current document, and its reference has not run out.
pub record Fresh (x : PolicyContext) (r : ElementReference) : Type 0 where
  pub unexpired : x.now < r.expires_at
  pub begun : r.issued_at ≤ x.now
  pub tab : r.tab_id ≡ x.tab_id
  pub document : r.document_id ≡ x.document_id
  pub origin : r.top_level_origin ≡ x.top_level_origin
  pub epoch : SameEpoch x.current_dom_epoch r.dom_epoch

-- A draft holds data of granted classes only.
abbrev pub DraftWithin : Action → Capability → Type 0
DraftWithin (form_draft fields) c =
    All (λ f. Exists (λ d. d ≡ FormField.data_class f) c.data_classes) fields
DraftWithin _ c = Unit

abbrev pub HasFixedScope : Capability → FixedScopeKind → Type 0
HasFixedScope c kind = Exists (λ s. s ≡ fixed kind) c.scopes

abbrev pub NamesKind : String → Scope → Type 0
NamesKind kind s = (types : List String) × (s ≡ action_prepare types) × Exists (λ t. t ≡ kind) types

-- The four ways in which a capability covers an action.
pub data InScope (p : Platform) (c : Capability) (a : Action) : Type 0 where
  same_origin :
      (address : String) (u : Url)
      → a ≡ navigate address
      → p.new_url address ≡ some u
      → u.origin ≡ c.top_level_origin
      → HasFixedScope c page_navigate_same_origin
      → InScope p c a
  granted_origin :
      (address : String) (u : Url)
      → a ≡ navigate address
      → p.new_url address ≡ some u
      → Exists (λ s. s ≡ allowed_origin u.origin) c.scopes
      → InScope p c a
  preparable :
      (risk_by_action a ≡ r2) ⊎ (risk_by_action a ≡ r3)
      → Exists (NamesKind (action_kind a)) c.scopes
      → InScope p c a
  listed :
      (kind : FixedScopeKind)
      → fixed_scope_by_action a ≡ some kind
      → HasFixedScope c kind
      → InScope p c a

-- The receipt is verified, unspent, in date, and bound to this action, state and context.
pub record ApprovalBound (p : Platform) (q : PolicyEvaluationRequest) (a : Action) (c : Capability)
    : Type 0 where
  pub stored : PreparedActionState
  pub receipt : ApprovalReceipt
  pub is_stored : q.context.prepared ≡ some stored
  pub is_receipt : q.approval ≡ shaped receipt
  pub well_formed : approval_schema p receipt ≡ true
  pub verified : q.context.approval_signature_verified ≡ some true
  pub unspent : receipt.consumed_at ≡ none
  pub begun : receipt.issued_at ≤ q.context.now
  pub unexpired : q.context.now < receipt.expires_at
  pub same_prepare : receipt.prepare_id ≡ stored.prepare_id
  pub same_action : receipt.action_hash ≡ hash_action p a
  pub prepared_action : receipt.action_hash ≡ stored.action_hash
  pub prepared_state : receipt.state_witness_hash ≡ stored.state_witness_hash
  pub same_state : q.context.state_witness_hash ≡ some receipt.state_witness_hash
  pub client : receipt.client_id ≡ q.context.client_id
  pub task : receipt.task_id ≡ q.context.task_id
  pub tab : receipt.tab_id ≡ q.context.tab_id
  pub document : receipt.document_id ≡ q.context.document_id
  pub origin : receipt.top_level_origin ≡ q.context.top_level_origin
  pub policy : receipt.policy_version ≡ c.policy_version
  pub present_after : receipt.issued_at ≤ receipt.verified_at
  pub present_before : receipt.verified_at ≤ receipt.expires_at

-- Everything that `evaluatePolicy` checks before it looks at the risk of the action.
pub record Vetted (p : Platform) (q : PolicyEvaluationRequest) (a : Action) (c : Capability)
    (l : PolicyLease) : Type 0 where
  pub is_action : q.action ≡ shaped a
  pub action_fits : action_schema p a ≡ true
  pub not_prohibited : forbidden_code_for_kind p (action_kind a) ≡ none
  pub is_capability : q.capability ≡ shaped c
  pub capability_fits : capability_schema p c ≡ true
  pub is_lease : q.lease ≡ shaped l
  pub lease_fits : lease_schema p l ≡ true
  pub grant : GrantHolds c l q.context
  pub fresh : All (Fresh q.context) (references_for a)
  pub data_within : DraftWithin a c
  pub in_scope : InScope p c a

abbrev pub IsLowRisk : Action → Type 0
IsLowRisk a = (risk_by_action a ≡ r0) ⊎ (risk_by_action a ≡ r1)

-- A vetted request that may run now: a low-risk action to prepare, or an approved one to commit.
pub record Permitted (p : Platform) (q : PolicyEvaluationRequest) : Type 0 where
  pub action : Action
  pub capability : Capability
  pub lease : PolicyLease
  pub vetted : Vetted p q action capability lease
  pub justified :
      ((q.phase ≡ prepare) × IsLowRisk action)
      ⊎ ((q.phase ≡ commit) × (risk_by_action action ≡ r2) × ApprovalBound p q action capability)

-- A vetted request that may only be previewed.
pub record Previewed (p : Platform) (q : PolicyEvaluationRequest) : Type 0 where
  pub action : Action
  pub capability : Capability
  pub lease : PolicyLease
  pub vetted : Vetted p q action capability lease
  pub preparing : q.phase ≡ prepare
  pub risky : (risk_by_action action ≡ r2) ⊎ (risk_by_action action ≡ r3)
