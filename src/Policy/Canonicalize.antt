-- ===== src/Policy/Canonicalize.antt =====
-- packages/policy/src/canonicalize.ts: the canonical form of a JSON value and the hash of an action.
-- A value of `JsonValue` is a plain JSON value with integral numbers, so the `TypeError`s for other
-- values do not arise. `Object.keys(value).sort()` is a stable sort of the fields by their keys.
use Prim.Native.String
use tabgrant.Common.{
  ℕ, ◌+◌, String, Bool, true, false, List, [], ◌∷◌, Option, none, some, ◌===◌, if◌then◌else◌,
}
use tabgrant.Protocol.Platform.{Platform}
use tabgrant.Protocol.Order.{text_le}
use tabgrant.Protocol.Primitives.{data_class_name}
use tabgrant.Protocol.Actions.{
  ℤ, pos, negsuc, ElementReference, FieldType, text, email, search_field, url, tel, number, date,
  FieldValue, text_value, number_value, flag_value, FormField, Action, a11y_read, screenshot_read,
  scroll, highlight, click_reversible, form_draft, navigate, form_submit, content_publish,
  message_send, data_delete, permission_change, financial_transaction, oauth_consent, action_kind,
}

mutual
  pub data JsonValue : Type 0 where
    null : JsonValue
    boolean : Bool → JsonValue
    integer : ℤ → JsonValue
    string : String → JsonValue
    array : JsonItems → JsonValue
    object : JsonFields → JsonValue

  pub data JsonItems : Type 0 where
    nil : JsonItems
    cons : JsonValue → JsonItems → JsonItems

  pub data JsonFields : Type 0 where
    end : JsonFields
    field : String → JsonValue → JsonFields → JsonFields

unfoldable pub insert_field : String → JsonValue → JsonFields → JsonFields
insert_field k v end = field k v end
insert_field k v (field j w rest) =
    let later = insert_field k v rest in
    if text_le k j then field k v (field j w rest) else field j w later

unfoldable pub sort_fields : JsonFields → JsonFields
unfolding insert_field text_le
sort_fields end = end
sort_fields (field k v rest) = insert_field k v (sort_fields rest)

-- `output[key] = v`: a key keeps its first place.
assign : String → JsonValue → JsonFields → JsonFields
assign k v end = field k v end
assign k v (field j w rest) =
    let later = assign k v rest in if j === k then field j v rest else field j w later

assign_all : Platform → JsonFields → JsonFields → JsonFields
unfolding assign
assign_all p output end = output
assign_all p output (field k v rest) =
    assign_all p (assign (Platform.normalize_nfc p k) v output) rest

unfoldable mutual
  unfolding sort_fields assign_all

  pub canonical_value : Platform → JsonValue → JsonValue
  canonical_value p null = null
  canonical_value p (boolean b) = boolean b
  canonical_value p (integer n) = integer n
  canonical_value p (string s) = string (Platform.normalize_nfc p s)
  canonical_value p (array items) = array (canonical_items p items)
  canonical_value p (object fields) =
      object (assign_all p end (sort_fields (canonical_fields p fields)))

  pub canonical_items : Platform → JsonItems → JsonItems
  canonical_items p nil = nil
  canonical_items p (cons v rest) = cons (canonical_value p v) (canonical_items p rest)

  pub canonical_fields : Platform → JsonFields → JsonFields
  canonical_fields p end = end
  canonical_fields p (field k v rest) = field k (canonical_value p v) (canonical_fields p rest)

infixr 66 ◌<+>◌
abbrev pub ◌<+>◌ : String → String → String
a <+> b = String.◌++◌ a b

abbrev pub integer_text : Platform → ℤ → String
integer_text p (pos n) = p.number_text n
integer_text p (negsuc n) = "-" <+> p.number_text (n + 1)

-- `JSON.stringify`: `after_first` puts the comma before an element that is not the first.
unfoldable mutual
  pub stringify : Platform → JsonValue → String
  stringify p null = "null"
  stringify p (boolean true) = "true"
  stringify p (boolean false) = "false"
  stringify p (integer n) = integer_text p n
  stringify p (string s) = Platform.quote p s
  stringify p (array items) = "[" <+> stringify_items p items false <+> "]"
  stringify p (object fields) = "{" <+> stringify_fields p fields false <+> "}"

  pub stringify_items : Platform → JsonItems → Bool → String
  stringify_items p nil after_first = ""
  stringify_items p (cons v rest) after_first =
      (if after_first then "," else "") <+> stringify p v <+> stringify_items p rest true

  pub stringify_fields : Platform → JsonFields → Bool → String
  stringify_fields p end after_first = ""
  stringify_fields p (field k v rest) after_first =
      (if after_first then "," else "")
      <+> Platform.quote p k
      <+> ":"
      <+> stringify p v
      <+> stringify_fields p rest true

abbrev optional_field : String → Option String → JsonFields → JsonFields
optional_field k none rest = rest
optional_field k (some s) rest = field k (string s) rest

abbrev pub natural : ℕ → JsonValue
natural n = integer (pos n)

abbrev pub texts : List String → JsonItems
texts [] = nil
texts (s ∷ rest) = cons (string s) (texts rest)

-- An action as the object that `JSON.stringify` reads, its fields in the order of the schemas.
unfoldable pub reference_value : ElementReference → JsonValue
reference_value r = object (
    field "referenceId" (string r.reference_id) (
      field "tabId" (string r.tab_id) (
        field "documentId" (string r.document_id) (
          field "topLevelOrigin" (string r.top_level_origin) (
            field "domEpoch" (natural r.dom_epoch) (
              field "role" (string r.role) (
                field "accessibleName" (string r.accessible_name) (
                  optional_field "valueDigest" r.value_digest (
                    field "issuedAt" (natural r.issued_at)
                      (field "expiresAt" (natural r.expires_at) end))))))))))

abbrev field_type_name : FieldType → String
field_type_name text = "text"
field_type_name email = "email"
field_type_name search_field = "search"
field_type_name url = "url"
field_type_name tel = "tel"
field_type_name number = "number"
field_type_name date = "date"

abbrev field_value_value : FieldValue → JsonValue
field_value_value (text_value s) = string s
field_value_value (number_value n) = integer n
field_value_value (flag_value b) = boolean b

unfoldable pub form_field_value : FormField → JsonValue
unfolding reference_value
form_field_value f = object (
    field "target" (reference_value f.target) (
      field "fieldName" (string f.field_name) (
        field "fieldType" (string (field_type_name f.field_type)) (
          field "value" (field_value_value f.value)
            (field "dataClass" (string (data_class_name f.data_class)) end)))))

unfoldable pub form_fields_value : List FormField → JsonItems
unfolding form_field_value
form_fields_value [] = nil
form_fields_value (f ∷ rest) = cons (form_field_value f) (form_fields_value rest)

abbrev closing : String → String → JsonFields
closing summary key = field "summary" (string summary) (field "idempotencyKey" (string key) end)

unfoldable pub action_fields : Action → JsonFields
unfolding reference_value form_fields_value
action_fields (a11y_read n) = field "maxNodes" (natural n) end
action_fields screenshot_read = field "viewportOnly" (boolean true) end
action_fields (scroll x y) = field "deltaX" (integer x) (field "deltaY" (integer y) end)
action_fields (highlight target) = field "target" (reference_value target) end
action_fields (click_reversible target) =
    field "target" (reference_value target)
      (field "expectedEffect" (string "reversible-ui-only") end)
action_fields (form_draft fields) = field "fields" (array (form_fields_value fields)) end
action_fields (navigate address) =
    field "url" (string address) (field "target" (string "same-tab") end)
action_fields (form_submit a) = field "target" (reference_value a.target) (
    field "fieldsDigest" (string a.fields_digest) (
      optional_field "account" a.account (
        field "destination" (string a.destination) (
          field "summary" (string a.summary) (
            field "reversible" (boolean a.reversible)
              (field "idempotencyKey" (string a.idempotency_key) end))))))
action_fields (content_publish a) =
    field "destination" (string a.destination)
      (field "contentDigest" (string a.content_digest) (closing a.summary a.idempotency_key))
action_fields (message_send a) = field "destination" (string a.destination) (
    field "recipients" (array (texts a.recipients))
      (field "contentDigest" (string a.content_digest) (closing a.summary a.idempotency_key)))
action_fields (data_delete a) =
    field "resource" (string a.resource)
      (field "count" (natural a.count) (closing a.summary a.idempotency_key))
action_fields (permission_change a) = field "principal" (string a.principal) (
    field "resource" (string a.resource)
      (field "permissions" (array (texts a.permissions)) (closing a.summary a.idempotency_key)))
action_fields (financial_transaction a) = field "payee" (string a.payee) (
    field "amountMinor" (natural a.amount_minor)
      (field "currency" (string a.currency) (closing a.summary a.idempotency_key)))
action_fields (oauth_consent a) = field "clientName" (string a.client_name) (
    field "requestedPermissions" (array (texts a.requested_permissions))
      (closing a.summary a.idempotency_key))

unfoldable pub action_value : Action → JsonValue
unfolding action_fields
action_value a = object (field "kind" (string (action_kind a)) (action_fields a))

-- `new URL(action.url).href`; the schema has checked that the URL parses.
unfoldable pub normalize_action : Platform → Action → Action
normalize_action p (navigate address) = elim (p.new_url address) [
  | none ↦ navigate address
  | some parsed ↦ navigate parsed.href
]
normalize_action p (a11y_read n) = a11y_read n
normalize_action p a = a

unfoldable pub canonicalize_action : Platform → Action → String
unfolding normalize_action action_value canonical_value stringify
canonicalize_action p a = stringify p (canonical_value p (action_value (normalize_action p a)))

abbrev pub action_hash_domain : String
action_hash_domain = "tabgrant/action/v0.1\n"

unfoldable pub hash_action : Platform → Action → String
unfolding canonicalize_action
hash_action p a = Platform.sha256_hex p (action_hash_domain <+> canonicalize_action p a)
