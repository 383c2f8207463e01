-- ===== src/Protocol/Actions.antt =====
-- packages/protocol/src/actions.ts: the actions, element references and approval receipts, with the
-- constraints that their schemas put on the fields. A number that a schema wants integral and
-- non-negative is an ℕ; the scroll offsets are integers. `maxNodes` is taken after its default.
use tabgrant.Common.{
  ℕ, ◌-◌, String, Bool, true, false, ◌&&◌, List, all, length, leb, ltb, Option, none, some,
}
use tabgrant.Protocol.Text.{
  length_within, identifier_schema, digest_schema, signature_schema, currency_schema,
  timestamp_schema,
}
use tabgrant.Protocol.Platform.{Platform}
use tabgrant.Protocol.Primitives.{
  DataClass, secret, authentication, origin_schema, url_schema, url_schema_throws,
}

-- `negsuc n` is -(n + 1).
pub data ℤ : Type 0 where
  pos negsuc : ℕ → ℤ

-- -bound ≤ z ≤ bound
abbrev pub magnitude_within : ℕ → ℤ → Bool
magnitude_within bound (pos n) = leb n bound
magnitude_within bound (negsuc n) = ltb n bound

pub record ElementReference : Type 0 where
  pub reference_id : String
  pub tab_id : String
  pub document_id : String
  pub top_level_origin : String
  pub dom_epoch : ℕ
  pub role : String
  pub accessible_name : String
  pub value_digest : Option String
  pub issued_at : ℕ
  pub expires_at : ℕ

pub data FieldType : Type 0 where
  text email search_field url tel number date : FieldType

-- A number value is integral here.
pub data FieldValue : Type 0 where
  text_value : String → FieldValue
  number_value : ℤ → FieldValue
  flag_value : Bool → FieldValue

pub record FormField : Type 0 where
  pub target : ElementReference
  pub field_name : String
  pub field_type : FieldType
  pub value : FieldValue
  pub data_class : DataClass

pub record FormSubmit : Type 0 where
  pub target : ElementReference
  pub fields_digest : String
  pub account : Option String
  pub destination : String
  pub summary : String
  pub reversible : Bool
  pub idempotency_key : String

pub record Publish : Type 0 where
  pub destination : String
  pub content_digest : String
  pub summary : String
  pub idempotency_key : String

pub record SendMessage : Type 0 where
  pub destination : String
  pub recipients : List String
  pub content_digest : String
  pub summary : String
  pub idempotency_key : String

pub record DeleteData : Type 0 where
  pub resource : String
  pub count : ℕ
  pub summary : String
  pub idempotency_key : String

pub record PermissionChange : Type 0 where
  pub principal : String
  pub resource : String
  pub permissions : List String
  pub summary : String
  pub idempotency_key : String

pub record FinancialTransaction : Type 0 where
  pub payee : String
  pub amount_minor : ℕ
  pub currency : String
  pub summary : String
  pub idempotency_key : String

pub record OauthConsent : Type 0 where
  pub client_name : String
  pub requested_permissions : List String
  pub summary : String
  pub idempotency_key : String

pub data Action : Type 0 where
  a11y_read : ℕ → Action
  screenshot_read : Action
  scroll : ℤ → ℤ → Action
  highlight : ElementReference → Action
  click_reversible : ElementReference → Action
  form_draft : List FormField → Action
  navigate : String → Action
  form_submit : FormSubmit → Action
  content_publish : Publish → Action
  message_send : SendMessage → Action
  data_delete : DeleteData → Action
  permission_change : PermissionChange → Action
  financial_transaction : FinancialTransaction → Action
  oauth_consent : OauthConsent → Action

-- The discriminator `kind` of `ActionSchema`.
abbrev pub action_kind : Action → String
action_kind (a11y_read n) = "page.a11y.read"
action_kind screenshot_read = "page.screenshot.read"
action_kind (scroll x y) = "page.scroll"
action_kind (highlight target) = "page.highlight"
action_kind (click_reversible target) = "page.click.reversible"
action_kind (form_draft fields) = "page.form.draft"
action_kind (navigate address) = "page.navigate"
action_kind (form_submit payload) = "page.form.submit"
action_kind (content_publish payload) = "content.publish"
action_kind (message_send payload) = "message.send"
action_kind (data_delete payload) = "data.delete"
action_kind (permission_change payload) = "security.permission.change"
action_kind (financial_transaction payload) = "financial.transaction"
action_kind (oauth_consent payload) = "security.oauth.consent"

abbrev optional {ℓ} : {A : Type ℓ} → (A → Bool) → Option A → Bool
optional check none = true
optional check (some a) = check a

-- `superRefine` of receipts and references: at most 60 seconds.
abbrev short_lifetime : ℕ → ℕ → Bool
short_lifetime issued expires = ltb issued expires && leb (expires - issued) 60000

abbrev draft_data_class : DataClass → Bool
draft_data_class secret = false
draft_data_class authentication = false
draft_data_class _ = true

abbrev field_value_schema : FieldValue → Bool
field_value_schema (text_value s) = length_within 0 100000 s
field_value_schema (number_value n) = true
field_value_schema (flag_value b) = true

module _ (p : Platform) where
  unfoldable pub reference_schema : ElementReference → Bool
  reference_schema r =
      identifier_schema r.reference_id
      && identifier_schema r.tab_id
      && identifier_schema r.document_id
      && origin_schema p r.top_level_origin
      && length_within 1 64 r.role
      && length_within 0 512 r.accessible_name
      && optional digest_schema r.value_digest
      && timestamp_schema r.issued_at
      && timestamp_schema r.expires_at
      && short_lifetime r.issued_at r.expires_at

  unfoldable pub form_field_schema : FormField → Bool
  form_field_schema f =
      reference_schema f.target
      && length_within 1 128 f.field_name
      && field_value_schema f.value
      && draft_data_class f.data_class

  unfoldable pub action_schema : Action → Bool
  action_schema (a11y_read n) = leb 1 n && leb n 5000
  action_schema screenshot_read = true
  action_schema (scroll x y) = magnitude_within 10000 x && magnitude_within 10000 y
  action_schema (highlight target) = reference_schema target
  action_schema (click_reversible target) = reference_schema target
  action_schema (form_draft fields) =
      leb 1 (length fields) && leb (length fields) 100 && all form_field_schema fields
  action_schema (navigate address) = url_schema p address
  action_schema (form_submit a) =
      reference_schema a.target
      && digest_schema a.fields_digest
      && optional (length_within 1 256) a.account
      && length_within 1 2048 a.destination
      && length_within 1 2000 a.summary
      && identifier_schema a.idempotency_key
  action_schema (content_publish a) =
      length_within 1 2048 a.destination
      && digest_schema a.content_digest
      && length_within 1 2000 a.summary
      && identifier_schema a.idempotency_key
  action_schema (message_send a) =
      length_within 1 2048 a.destination
      && (leb 1 (length a.recipients)
          && leb (length a.recipients) 100
          && all (length_within 1 512) a.recipients)
      && digest_schema a.content_digest
      && length_within 1 2000 a.summary
      && identifier_schema a.idempotency_key
  action_schema (data_delete a) =
      length_within 1 2048 a.resource
      && (leb 1 a.count && leb a.count 10000)
      && length_within 1 2000 a.summary
      && identifier_schema a.idempotency_key
  action_schema (permission_change a) =
      length_within 1 512 a.principal
      && length_within 1 2048 a.resource
      && (leb 1 (length a.permissions)
          && leb (length a.permissions) 100
          && all (length_within 1 128) a.permissions)
      && length_within 1 2000 a.summary
      && identifier_schema a.idempotency_key
  action_schema (financial_transaction a) =
      length_within 1 512 a.payee
      && (leb 1 a.amount_minor && leb a.amount_minor 9007199254740991)
      && currency_schema a.currency
      && length_within 1 2000 a.summary
      && identifier_schema a.idempotency_key
  action_schema (oauth_consent a) =
      length_within 1 512 a.client_name
      && (leb 1 (length a.requested_permissions)
          && leb (length a.requested_permissions) 100
          && all (length_within 1 256) a.requested_permissions)
      && length_within 1 2000 a.summary
      && identifier_schema a.idempotency_key

pub data PresenceMethod : Type 0 where
  biometric security_key os_user_verification : PresenceMethod

pub record ApprovalReceipt : Type 0 where
  pub prepare_id : String
  pub action_hash : String
  pub state_witness_hash : String
  pub client_id : String
  pub task_id : String
  pub tab_id : String
  pub document_id : String
  pub top_level_origin : String
  pub policy_version : String
  pub issued_at : ℕ
  pub expires_at : ℕ
  pub consumed_at : Option ℕ
  pub presence_method : PresenceMethod
  pub verified_at : ℕ
  pub signature : String

unfoldable pub approval_schema : Platform → ApprovalReceipt → Bool
approval_schema p a =
    identifier_schema a.prepare_id
    && digest_schema a.action_hash
    && digest_schema a.state_witness_hash
    && identifier_schema a.client_id
    && identifier_schema a.task_id
    && identifier_schema a.tab_id
    && identifier_schema a.document_id
    && origin_schema p a.top_level_origin
    && identifier_schema a.policy_version
    && timestamp_schema a.issued_at
    && timestamp_schema a.expires_at
    && optional timestamp_schema a.consumed_at
    && timestamp_schema a.verified_at
    && signature_schema a.signature
    && short_lifetime a.issued_at a.expires_at

-- Parsing the action throws a TypeError.
unfoldable pub action_schema_throws : Platform → Action → Bool
unfolding url_schema_throws
action_schema_throws p (navigate address) = url_schema_throws p address
action_schema_throws p _ = false
