-- ===== src/Protocol/Access.antt =====
-- packages/protocol/src/access.ts with `scopeKey` of primitives.ts: capabilities and leases, and the
-- constraints that their schemas put on the fields.
use Prim.Native.String
use tabgrant.Common.{
  ℕ, ◌-◌, String, Bool, true, ◌&&◌, not, List, [], ◌∷◌, any, all, length, leb, ltb, Option, none,
  some, ◌===◌, map, is_none,
}
use tabgrant.Protocol.Text.{length_within, identifier_schema, signature_schema, timestamp_schema}
use tabgrant.Protocol.Platform.{Platform}
use tabgrant.Protocol.Order.{sort_texts, join_comma}
use tabgrant.Protocol.Primitives.{
  Scope, fixed, allowed_origin, model_egress, action_prepare, DataClass, data_class_name,
  fixed_scope_name, scope_schema, origin_schema,
}

pub record CapabilityClaims : Type 0 where
  pub version : String
  pub capability_id : String
  pub issuer : String
  pub client_id : String
  pub task_id : String
  pub browser_profile_instance : String
  pub tab_id : String
  pub document_id : String
  pub top_level_origin : String
  pub scopes : List Scope
  pub data_classes : List DataClass
  pub egress_destinations : List String
  pub issued_at : ℕ
  pub expires_at : ℕ
  pub idle_timeout_ms : ℕ
  pub use_limit : ℕ
  pub nonce : String
  pub audience : String
  pub policy_version : String
  pub non_delegable : Bool

pub record Capability : Type 0 where
  pub claims : CapabilityClaims
  pub open claims use *
  pub signature : String

pub data LeaseState : Type 0 where
  active revoked expired : LeaseState

pub record PolicyLease : Type 0 where
  pub version : String
  pub lease_id : String
  pub capability_id : String
  pub client_id : String
  pub task_id : String
  pub browser_profile_instance : String
  pub tab_id : String
  pub document_id : String
  pub top_level_origin : String
  pub state : LeaseState
  pub issued_at : ℕ
  pub expires_at : ℕ
  pub last_used_at : ℕ
  pub idle_timeout_ms : ℕ
  pub remaining_uses : ℕ
  pub revoked_at : Option ℕ
  pub revocation_reason : Option String

unfoldable pub scope_key : Platform → Scope → String
scope_key p (allowed_origin origin) = String.◌++◌ "page.navigate.allowed_origin:" origin
scope_key p (model_egress provider classes max_bytes) = String.◌++◌ "data.egress.model:" (
    String.◌++◌ provider (
      String.◌++◌ ":" (
        String.◌++◌ (join_comma (sort_texts (map data_class_name classes)))
          (String.◌++◌ ":" (Platform.number_text p max_bytes)))))
scope_key p (action_prepare types) = String.◌++◌ "action.prepare:" (join_comma (sort_texts types))
scope_key p (fixed kind) = fixed_scope_name kind

-- `new Set(keys).size === keys.length`
unfoldable pub distinct_texts : List String → Bool
distinct_texts [] = true
distinct_texts (k ∷ ks) = not (any (λ j. j === k) ks) && distinct_texts ks

unfoldable pub claims_schema : Platform → CapabilityClaims → Bool
claims_schema p c =
    c.version === "0.1"
    && identifier_schema c.capability_id
    && identifier_schema c.issuer
    && identifier_schema c.client_id
    && identifier_schema c.task_id
    && identifier_schema c.browser_profile_instance
    && identifier_schema c.tab_id
    && identifier_schema c.document_id
    && origin_schema p c.top_level_origin
    && (leb 1 (length c.scopes) && leb (length c.scopes) 32 && all (scope_schema p) c.scopes)
    && leb (length c.data_classes) 6
    && (leb (length c.egress_destinations) 16 && all identifier_schema c.egress_destinations)
    && timestamp_schema c.issued_at
    && timestamp_schema c.expires_at
    && (leb 1 c.idle_timeout_ms && leb c.idle_timeout_ms 120000)
    && (leb 1 c.use_limit && leb c.use_limit 10000)
    && identifier_schema c.nonce
    && identifier_schema c.audience
    && identifier_schema c.policy_version
    && c.non_delegable
    && ltb c.issued_at c.expires_at
    && leb (c.expires_at - c.issued_at) 600000
    && distinct_texts (map (scope_key p) c.scopes)

unfoldable pub capability_schema : Platform → Capability → Bool
capability_schema p c = claims_schema p c.claims && signature_schema c.signature

abbrev revocation_recorded : LeaseState → Option ℕ → Bool
revocation_recorded revoked at = not (is_none at)
revocation_recorded _ at = true

abbrev optional_within : ℕ → ℕ → Option String → Bool
optional_within low high none = true
optional_within low high (some s) = length_within low high s

abbrev optional_timestamp : Option ℕ → Bool
optional_timestamp none = true
optional_timestamp (some t) = timestamp_schema t

unfoldable pub lease_schema : Platform → PolicyLease → Bool
lease_schema p l =
    l.version === "0.1"
    && identifier_schema l.lease_id
    && identifier_schema l.capability_id
    && identifier_schema l.client_id
    && identifier_schema l.task_id
    && identifier_schema l.browser_profile_instance
    && identifier_schema l.tab_id
    && identifier_schema l.document_id
    && origin_schema p l.top_level_origin
    && timestamp_schema l.issued_at
    && timestamp_schema l.expires_at
    && timestamp_schema l.last_used_at
    && (leb 1 l.idle_timeout_ms && leb l.idle_timeout_ms 120000)
    && leb l.remaining_uses 10000
    && optional_timestamp l.revoked_at
    && optional_within 1 256 l.revocation_reason
    && ltb l.issued_at l.expires_at
    && (leb l.issued_at l.last_used_at && leb l.last_used_at l.expires_at)
    && revocation_recorded l.state l.revoked_at
