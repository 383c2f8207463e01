-- ===== src/Policy/Scopes.antt =====
-- packages/policy/src/engine.ts: scopes, element references and data classes.
use tabgrant.Common.{
  ℕ, String, Bool, true, false, not, ◌&&◌, ◌||◌, List, [], ◌∷◌, Option, none, some, any, all, leb,
  ltb, ◌==◌, ◌===◌, if◌then◌else◌, map,
}
use tabgrant.Protocol.Platform.{Platform}
use tabgrant.Protocol.Primitives.{
  Scope, fixed, allowed_origin, action_prepare, FixedScopeKind, page_navigate_same_origin,
  same_data_class, same_fixed_scope,
}
use tabgrant.Protocol.Actions.{
  ElementReference, Action, highlight, click_reversible, form_draft, navigate, form_submit,
  action_kind,
}
use tabgrant.Protocol.Access.{Capability}
use tabgrant.Policy.Request.{risk_by_action, fixed_scope_by_action, by_risk, PolicyContext}

abbrev pub is_fixed_scope : FixedScopeKind → Scope → Bool
is_fixed_scope kind (fixed k) = same_fixed_scope k kind
is_fixed_scope kind _ = false

unfoldable pub has_fixed_scope : Capability → FixedScopeKind → Bool
has_fixed_scope c kind = any (is_fixed_scope kind) c.scopes

abbrev pub prepares : String → Scope → Bool
prepares kind (action_prepare types) = any (λ t. t === kind) types
prepares kind _ = false

unfoldable pub has_prepare_scope : Capability → String → Bool
has_prepare_scope c kind = any (prepares kind) c.scopes

abbrev pub allows_origin : String → Scope → Bool
allows_origin destination (allowed_origin origin) = origin === destination
allows_origin destination _ = false

-- The schema has checked that the URL parses.
unfoldable pub has_navigation_scope : Platform → Capability → String → Bool
has_navigation_scope p c address = elim (p.new_url address) [
  | none ↦ false
  | some parsed ↦
      if parsed.origin === c.top_level_origin
        && any (is_fixed_scope page_navigate_same_origin) c.scopes
      then true
      else any (allows_origin parsed.origin) c.scopes
]

unfoldable pub references_for : Action → List ElementReference
references_for (highlight target) = target ∷ []
references_for (click_reversible target) = target ∷ []
references_for (form_submit a) = a.target ∷ []
references_for (form_draft fields) = map (λ f. f.target) fields
references_for _ = []

-- `currentDomEpoch !== undefined && reference.domEpoch !== currentDomEpoch`
abbrev pub other_epoch : Option ℕ → ℕ → Bool
other_epoch none epoch = false
other_epoch (some current) epoch = not (epoch == current)

unfoldable pub is_stale : PolicyContext → ElementReference → Bool
is_stale x r =
    leb r.expires_at x.now
    || ltb x.now r.issued_at
    || not (r.tab_id === x.tab_id)
    || not (r.document_id === x.document_id)
    || not (r.top_level_origin === x.top_level_origin)
    || other_epoch x.current_dom_epoch r.dom_epoch

unfoldable pub stale_reference : Action → PolicyContext → Bool
unfolding references_for is_stale
stale_reference a x = any (is_stale x) (references_for a)

unfoldable pub data_class_allowed : Action → Capability → Bool
data_class_allowed (form_draft fields) c =
    all (λ f. any (λ d. same_data_class d f.data_class) c.data_classes) fields
data_class_allowed _ c = true

abbrev pub fixed_scope_present : Option FixedScopeKind → Capability → Bool
fixed_scope_present none c = false
fixed_scope_present (some kind) c = has_fixed_scope c kind

unfoldable pub required_scope_present : Platform → Action → Capability → Bool
unfolding has_navigation_scope has_prepare_scope has_fixed_scope risk_by_action
    fixed_scope_by_action
required_scope_present p (navigate address) c = has_navigation_scope p c address
required_scope_present p a c =
    by_risk (risk_by_action a) (has_prepare_scope c (action_kind a))
      (has_prepare_scope c (action_kind a)) (fixed_scope_present (fixed_scope_by_action a) c)
