-- ===== src/Broker/Capability.antt =====
-- apps/broker/src/capability.ts: issuing a signed capability and verifying its signature. The secret is
-- the key text of the HMAC.
use tabgrant.Common.{
  ℕ, ◌+◌, ◌-◌, ◌*◌, String, Bool, true, false, ◌&&◌, List, [], ◌∷◌, Option, none, some, leb, ◌==◌,
  if◌then◌else◌, map,
}
use tabgrant.Protocol.Text.{codes}
use tabgrant.Protocol.Platform.{Platform}
use tabgrant.Protocol.Order.{text_le}
use tabgrant.Protocol.Primitives.{
  visible, private, Scope, fixed, allowed_origin, model_egress, action_prepare, FixedScopeKind,
  data_class_name, fixed_scope_name,
}
use tabgrant.Protocol.Access.{CapabilityClaims, Capability, claims_schema, capability_schema}
use tabgrant.Policy.Canonicalize.{
  JsonValue, boolean, integer, string, array, object, null, JsonItems, nil, cons, JsonFields, end,
  field, natural, texts, integer_text, ◌<+>◌,
}
use tabgrant.Broker.Constants.{
  ImplementedScope, tab_metadata_read, page_a11y_read, page_element_inspect, page_scroll,
  page_highlight, page_navigate_same_origin, data_egress_model,
}

pub record CapabilityGrant : Type 0 where
  pub client_id : String
  pub task_id : String
  pub browser_instance_id : String
  pub tab_id : ℕ
  pub document_id : String
  pub origin : String
  pub scopes : List ImplementedScope
  pub declared_model_provider : Option String
  pub issued_at : ℕ
  pub expires_at : ℕ
  pub use_limit : ℕ

-- `none` is the `Error` for a model egress scope with no provider.
unfoldable pub to_protocol_scope : ImplementedScope → Option String → Option Scope
to_protocol_scope data_egress_model none = none
to_protocol_scope data_egress_model (some provider) =
    some (model_egress provider (visible ∷ private ∷ []) 1000000)
to_protocol_scope tab_metadata_read provider = some (fixed FixedScopeKind.tab_metadata_read)
to_protocol_scope page_a11y_read provider = some (fixed FixedScopeKind.page_a11y_read)
to_protocol_scope page_element_inspect provider = some (fixed FixedScopeKind.page_element_inspect)
to_protocol_scope page_scroll provider = some (fixed FixedScopeKind.page_scroll)
to_protocol_scope page_highlight provider = some (fixed FixedScopeKind.page_highlight)
to_protocol_scope page_navigate_same_origin provider =
    some (fixed FixedScopeKind.page_navigate_same_origin)

abbrev both_scopes : Option Scope → Option (List Scope) → Option (List Scope)
both_scopes none rest = none
both_scopes (some s) none = none
both_scopes (some s) (some rest) = some (s ∷ rest)

unfoldable pub to_protocol_scopes : Option String → List ImplementedScope → Option (List Scope)
unfolding to_protocol_scope
to_protocol_scopes provider [] = some []
to_protocol_scopes provider (s ∷ rest) =
    both_scopes (to_protocol_scope s provider) (to_protocol_scopes provider rest)

-- The fields of an object as key and text, sorted by key.
insert_member : String → String → List (String × String) → List (String × String)
insert_member k t [] = (k, t) ∷ []
insert_member k t ((j, u) ∷ rest) =
    let later = insert_member k t rest in
    if text_le k j then (k, t) ∷ (j, u) ∷ rest else (j, u) ∷ later

abbrev join_items : List String → String
join_items [] = ""
join_items (a ∷ []) = a
join_items (a ∷ b ∷ rest) = a <+> "," <+> join_items (b ∷ rest)

abbrev member_text : Platform → String × String → String
member_text p (k, t) = Platform.quote p (p.normalize_nfc k) <+> ":" <+> t

unfoldable mutual
  unfolding insert_member

  pub canonical_json : Platform → JsonValue → String
  canonical_json p null = "null"
  canonical_json p (boolean true) = "true"
  canonical_json p (boolean false) = "false"
  canonical_json p (integer n) = integer_text p n
  canonical_json p (string s) = Platform.quote p (p.normalize_nfc s)
  canonical_json p (array items) = "[" <+> join_items (canonical_elements p items) <+> "]"
  canonical_json p (object fields) =
      "{" <+> join_items (map (member_text p) (canonical_members p fields)) <+> "}"

  pub canonical_elements : Platform → JsonItems → List String
  canonical_elements p nil = []
  canonical_elements p (cons v rest) = canonical_json p v ∷ canonical_elements p rest

  pub canonical_members : Platform → JsonFields → List (String × String)
  canonical_members p end = []
  canonical_members p (field k v rest) =
      insert_member k (canonical_json p v) (canonical_members p rest)

unfoldable pub scope_value : Scope → JsonValue
scope_value (fixed kind) = object (field "kind" (string (fixed_scope_name kind)) end)
scope_value (allowed_origin origin) =
    object
      (field "kind" (string "page.navigate.allowed_origin") (field "origin" (string origin) end))
scope_value (model_egress provider classes max_bytes) = object (
    field "kind" (string "data.egress.model") (
      field "providerId" (string provider) (
        field "dataClasses" (array (texts (map data_class_name classes)))
          (field "maxBytes" (natural max_bytes) end))))
scope_value (action_prepare types) =
    object (field "kind" (string "action.prepare") (field "actionTypes" (array (texts types)) end))

abbrev scope_values : List Scope → JsonItems
scope_values [] = nil
scope_values (s ∷ rest) = cons (scope_value s) (scope_values rest)

unfoldable pub claims_value : CapabilityClaims → JsonValue
unfolding scope_value
claims_value c = object (
    field "version" (string c.version) (
      field "capabilityId" (string c.capability_id) (
        field "issuer" (string c.issuer) (
          field "clientId" (string c.client_id) (
            field "taskId" (string c.task_id) (
              field "browserProfileInstance" (string c.browser_profile_instance) (
                field "tabId" (string c.tab_id) (
                  field "documentId" (string c.document_id) (
                    field "topLevelOrigin" (string c.top_level_origin) (
                      field "scopes" (array (scope_values c.scopes)) (
                        field "dataClasses" (array (texts (map data_class_name c.data_classes))) (
                          field "egressDestinations" (array (texts c.egress_destinations)) (
                            field "issuedAt" (natural c.issued_at) (
                              field "expiresAt" (natural c.expires_at) (
                                field "idleTimeoutMs" (natural c.idle_timeout_ms) (
                                  field "useLimit" (natural c.use_limit) (
                                    field "nonce" (string c.nonce) (
                                      field "audience" (string c.audience) (
                                        field "policyVersion" (string c.policy_version) (
                                          field "nonDelegable" (boolean c.non_delegable)
                                            end))))))))))))))))))))

unfoldable pub sign_claims : Platform → String → CapabilityClaims → String
unfolding claims_value canonical_json
sign_claims p secret c = Platform.hmac_sha256_hex p secret (canonical_json p (claims_value c))

-- The claims before the schema has checked them; the two identifiers are fresh UUIDs.
unfoldable pub claims_of_grant :
    Platform → CapabilityGrant → List Scope → String → String → CapabilityClaims
claims_of_grant p g scopes capability_id nonce = record {
  version = "0.1";
  capability_id = capability_id;
  issuer = "tabgrant-broker";
  client_id = g.client_id;
  task_id = g.task_id;
  browser_profile_instance = g.browser_instance_id;
  tab_id = p.number_text g.tab_id;
  document_id = g.document_id;
  top_level_origin = g.origin;
  scopes = scopes;
  data_classes = visible ∷ private ∷ [];
  egress_destinations = elim g.declared_model_provider [ none ↦ [] | some m ↦ m ∷ [] ];
  issued_at = g.issued_at;
  expires_at = g.expires_at;
  idle_timeout_ms = 120000;
  use_limit = g.use_limit;
  nonce = nonce;
  audience = g.client_id;
  policy_version = "v0.1";
  non_delegable = true;
}

-- `none` is an exception: no provider for model egress, or a schema that refuses the result.
unfoldable pub issue : Platform → String → CapabilityGrant → String → String → Option Capability
unfolding sign_claims claims_of_grant to_protocol_scopes
issue p secret g capability_id nonce =
    elim (to_protocol_scopes g.declared_model_provider g.scopes) [
      | none ↦ none
      | some scopes ↦
          let claims = claims_of_grant p g scopes capability_id nonce in
          let signed : Capability = record {
            claims = claims;
            signature = sign_claims p secret claims;
          } in
          if claims_schema p claims && capability_schema p signed then some signed else none
    ]

abbrev hex_digit : ℕ → Option ℕ
hex_digit c =
    if leb b'0' c && leb c b'9'
    then some (c - b'0')
    else if leb b'a' c && leb c b'f'
    then some (c - 87)
    else if leb b'A' c && leb c b'F'
    then some (c - 55)
    else none

abbrev hex_pair : Option ℕ → Option ℕ → List ℕ → List ℕ
hex_pair (some high) (some low) rest = (high * 16 + low) ∷ rest
hex_pair _ _ rest = []

-- `Buffer.from(text, "hex")` stops at the first pair that is not hexadecimal.
unfoldable pub hex_bytes : List ℕ → List ℕ
hex_bytes [] = []
hex_bytes (a ∷ []) = []
hex_bytes (a ∷ b ∷ rest) = hex_pair (hex_digit a) (hex_digit b) (hex_bytes rest)

-- Equal length and `timingSafeEqual`.
unfoldable pub same_bytes : List ℕ → List ℕ → Bool
same_bytes [] [] = true
same_bytes [] (y ∷ ys) = false
same_bytes (x ∷ xs) [] = false
same_bytes (x ∷ xs) (y ∷ ys) = x == y && same_bytes xs ys

unfoldable pub verify : Platform → String → Capability → Bool
unfolding hex_bytes same_bytes
verify p secret c =
    capability_schema p c
    && same_bytes (hex_bytes (codes c.signature))
        (hex_bytes (codes (sign_claims p secret c.claims)))
