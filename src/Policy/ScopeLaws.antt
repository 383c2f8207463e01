-- ===== src/Policy/ScopeLaws.antt =====
-- The scope, reference and data-class checks of packages/policy/src/engine.ts against `InScope`,
-- `Fresh` and `DraftWithin`.
use tabgrant.Common.{
  ℕ, ◌≡◌, ◌↔◌, ◌⊎◌, inl, inr, refl, String, true, false, Option, none, some, arith, ===_iff, any,
  All, Exists, any_iff, all_iff, any-false_iff, Option-cases, Bool-cases, ◌===◌,
}
use tabgrant.Protocol.Platform.{Platform, Url}
use tabgrant.Protocol.Primitives.{
  r2, r3, Scope, fixed, allowed_origin, action_prepare, FixedScopeKind, page_navigate_same_origin,
  same_fixed_scope_iff, same_data_class_iff, same_data_class,
}
use tabgrant.Protocol.Actions.{
  ElementReference, Action, a11y_read, screenshot_read, scroll, highlight, click_reversible,
  form_draft, form_submit, navigate, action_kind,
}
use tabgrant.Protocol.Access.{Capability}
use tabgrant.Policy.Request.{PolicyContext, risk_by_action, fixed_scope_by_action}
use tabgrant.Policy.Scopes.{
  is_fixed_scope, has_fixed_scope, prepares, has_prepare_scope, allows_origin, has_navigation_scope,
  references_for, other_epoch, is_stale, stale_reference, data_class_allowed,
  required_scope_present,
}
use tabgrant.Policy.Permits.{
  Fresh, DraftWithin, HasFixedScope, NamesKind, InScope, SameEpoch, same_origin, granted_origin,
  preparable, listed,
}

is_fixed_scope_iff :
    (kind : FixedScopeKind) (s : Scope) → (is_fixed_scope kind s ≡ true) ↔ (s ≡ fixed kind)
is_fixed_scope_iff kind (fixed k) = ground (arith, same_fixed_scope_iff k kind)
is_fixed_scope_iff kind _ = ground arith

prepares_iff : (kind : String) (s : Scope) → (prepares kind s ≡ true) ↔ NamesKind kind s
prepares_iff kind (action_prepare types) =
    let (to, from) = any_iff (λ t. t === kind) (λ t. ===_iff t kind) types in
    ((λ e. (types, refl, to e)), (λ (ts, e, h). let same : ts ≡ types = cc in from (rw same at h)))
prepares_iff kind _ = ((λ e. cc), (λ (ts, e, h). cc))

allows_origin_iff :
    (destination : String) (s : Scope)
    → (allows_origin destination s ≡ true) ↔ (s ≡ allowed_origin destination)
allows_origin_iff destination (allowed_origin origin) = ground (arith, ===_iff origin destination)
allows_origin_iff destination _ = ground arith

other_epoch_iff : (o : Option ℕ) (epoch : ℕ) → (other_epoch o epoch ≡ false) ↔ SameEpoch o epoch
other_epoch_iff none epoch = ((λ e. tt), (λ h. refl))
other_epoch_iff (some n) epoch = ground arith

is_stale_iff : (x : PolicyContext) (r : ElementReference) → (is_stale x r ≡ false) ↔ Fresh x r
unfolding is_stale
is_stale_iff x r =
    let (to, from) = other_epoch_iff x.current_dom_epoch r.dom_epoch in
    (
      (λ e. record {
        unexpired = ground arith;
        begun = ground arith;
        tab = ground (arith, ===_iff r.tab_id x.tab_id);
        document = ground (arith, ===_iff r.document_id x.document_id);
        origin = ground (arith, ===_iff r.top_level_origin x.top_level_origin);
        epoch = to (ground arith);
      }),
      (λ f.
          let same : other_epoch x.current_dom_epoch r.dom_epoch ≡ false = from f.epoch in
          ground (
            arith,
            ===_iff r.tab_id x.tab_id,
            ===_iff r.document_id x.document_id,
            ===_iff r.top_level_origin x.top_level_origin,
          )),
    )

-- `staleReference` finds nothing exactly when every element reference of the action has begun, has not
-- run out, and is of the call's tab, document, origin and, where the call knows one, epoch.
pub stale_reference_iff :
    (a : Action) (x : PolicyContext)
    → (stale_reference a x ≡ false) ↔ All (Fresh x) (references_for a)
unfolding stale_reference
stale_reference_iff a x = any-false_iff (is_stale x) (is_stale_iff x) (references_for a)

-- `dataClassAllowed` holds exactly when every field of a form draft has a data class of the capability;
-- other actions always pass.
pub data_class_allowed_iff :
    (a : Action) (c : Capability) → (data_class_allowed a c ≡ true) ↔ DraftWithin a c
unfolding data_class_allowed
data_class_allowed_iff (form_draft fields) c =
    all_iff (λ f. any (λ d. same_data_class d f.data_class) c.data_classes)
      (λ f.
        any_iff (λ d. same_data_class d f.data_class) (λ d. same_data_class_iff d f.data_class)
          c.data_classes)
      fields
data_class_allowed_iff _ c = ((λ e. tt), (λ t. refl))

has_fixed_scope_iff :
    (c : Capability) (kind : FixedScopeKind)
    → (has_fixed_scope c kind ≡ true) ↔ HasFixedScope c kind
unfolding has_fixed_scope
has_fixed_scope_iff c kind = any_iff (is_fixed_scope kind) (is_fixed_scope_iff kind) c.scopes

has_prepare_scope_iff :
    (c : Capability) (kind : String)
    → (has_prepare_scope c kind ≡ true) ↔ Exists (NamesKind kind) c.scopes
unfolding has_prepare_scope
has_prepare_scope_iff c kind = any_iff (prepares kind) (prepares_iff kind) c.scopes

navigation-InScope :
    (p : Platform) (c : Capability) (address : String)
    → has_navigation_scope p c address ≡ true
    → InScope p c (navigate address)
unfolding has_navigation_scope
navigation-InScope p c address e = elim (Option-cases (p.new_url address)) [
  | inl missing ↦ absurd (cc (rw (missing, has_navigation_scope) at e))
  | inr (u, found) ↦
      let own =
        any_iff (is_fixed_scope page_navigate_same_origin)
          (is_fixed_scope_iff page_navigate_same_origin) c.scopes in
      let granted = any_iff (allows_origin u.origin) (allows_origin_iff u.origin) c.scopes in
      elim (Bool-cases (any (allows_origin u.origin) c.scopes)) [
        | inl covered ↦ granted_origin address u refl found (granted.0 covered)
        | inr uncovered ↦
            same_origin address u refl found (ground (arith, ===_iff u.origin c.top_level_origin))
              (own.0 (ground arith))
      ]
]

navigation_complete :
    (p : Platform) (c : Capability) (address : String) (u : Url)
    → p.new_url address ≡ some u
    → ((u.origin ≡ c.top_level_origin) × HasFixedScope c page_navigate_same_origin)
      ⊎ Exists (λ s. s ≡ allowed_origin u.origin) c.scopes
    → has_navigation_scope p c address ≡ true
unfolding has_navigation_scope
navigation_complete p c address u found (inl (same, own)) =
    let held =
      (any_iff (is_fixed_scope page_navigate_same_origin)
          (is_fixed_scope_iff page_navigate_same_origin) c.scopes).1
        own in
    ground (arith, ===_iff u.origin c.top_level_origin)
navigation_complete p c address u found (inr other) =
    let held = (any_iff (allows_origin u.origin) (allows_origin_iff u.origin) c.scopes).1 other in
    ground arith

-- The prepare scope decides for the actions of risk R2 and R3, and a fixed scope for the others.
preparation-InScope :
    (p : Platform) (a : Action) (c : Capability)
    → (risk_by_action a ≡ r2) ⊎ (risk_by_action a ≡ r3)
    → has_prepare_scope c (action_kind a) ≡ true
    → InScope p c a
preparation-InScope p a c risky e = preparable risky ((has_prepare_scope_iff c (action_kind a)).0 e)

pub InScope-of_required :
    (p : Platform) (a : Action) (c : Capability)
    → required_scope_present p a c ≡ true
    → InScope p c a
unfolding required_scope_present risk_by_action fixed_scope_by_action
InScope-of_required p (navigate address) c e = navigation-InScope p c address e
InScope-of_required p (a11y_read n) c e = listed _ refl ((has_fixed_scope_iff c _).0 e)
InScope-of_required p screenshot_read c e = listed _ refl ((has_fixed_scope_iff c _).0 e)
InScope-of_required p (scroll x y) c e = listed _ refl ((has_fixed_scope_iff c _).0 e)
InScope-of_required p (highlight t) c e = listed _ refl ((has_fixed_scope_iff c _).0 e)
InScope-of_required p (click_reversible t) c e = listed _ refl ((has_fixed_scope_iff c _).0 e)
InScope-of_required p (form_draft fs) c e = listed _ refl ((has_fixed_scope_iff c _).0 e)
InScope-of_required p (form_submit d) c e = preparation-InScope p (form_submit d) c (inl refl) e
InScope-of_required p a c e = preparation-InScope p a c (inr refl) e

preparation_complete :
    (p : Platform) (a : Action) (c : Capability)
    → (risk_by_action a ≡ r2) ⊎ (risk_by_action a ≡ r3)
    → has_prepare_scope c (action_kind a) ≡ true
    → required_scope_present p a c ≡ true
unfolding required_scope_present risk_by_action
preparation_complete p (navigate address) c risky e = ground arith
preparation_complete p a c risky e = ground arith

listing_complete :
    (p : Platform) (a : Action) (c : Capability) (kind : FixedScopeKind)
    → fixed_scope_by_action a ≡ some kind
    → has_fixed_scope c kind ≡ true
    → required_scope_present p a c ≡ true
unfolding required_scope_present risk_by_action fixed_scope_by_action
listing_complete p (navigate address) c kind e h = cc
listing_complete p a c kind e h = ground arith

pub required_of_InScope :
    (p : Platform) (a : Action) (c : Capability)
    → InScope p c a
    → required_scope_present p a c ≡ true
unfolding required_scope_present
required_of_InScope p a c (same_origin address u e found same own) =
    rw e (navigation_complete p c address u found (inl (same, own)))
required_of_InScope p a c (granted_origin address u e found other) =
    rw e (navigation_complete p c address u found (inr other))
required_of_InScope p a c (preparable risky held) =
    preparation_complete p a c risky ((has_prepare_scope_iff c (action_kind a)).1 held)
required_of_InScope p a c (listed kind e held) =
    listing_complete p a c kind e ((has_fixed_scope_iff c kind).1 held)
