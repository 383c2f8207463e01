-- ===== src/Protocol/Primitives.antt =====
-- packages/protocol/src/primitives.ts: origins, URLs, data classes, risk levels and scopes.
use tabgrant.Common.{
  is_none, ℕ, ◌≡◌, ◌↔◌, String, Bool, true, false, ◌&&◌, ◌||◌, List, all, length, leb, ◌==◌, ◌===◌,
  if◌then◌else◌, none, some, arith, not,
}
use tabgrant.Protocol.Text.{identifier_schema, text_length}
use tabgrant.Protocol.Platform.{Url, Platform}

pub data RiskLevel : Type 0 where
  r0 r1 r2 r3 r4 : RiskLevel

pub data DataClass : Type 0 where
  public visible private sensitive secret authentication : DataClass

pub data FixedScopeKind : Type 0 where
  broker_status_read tab_metadata_read page_a11y_read page_element_inspect page_scroll :
      FixedScopeKind
  page_highlight page_screenshot_read page_click_reversible page_form_draft : FixedScopeKind
  page_navigate_same_origin : FixedScopeKind

pub data Scope : Type 0 where
  fixed : FixedScopeKind → Scope
  allowed_origin : String → Scope
  model_egress : String → List DataClass → ℕ → Scope
  action_prepare : List String → Scope

-- The texts on the wire.
abbrev pub data_class_name : DataClass → String
data_class_name public = "public"
data_class_name visible = "visible"
data_class_name private = "private"
data_class_name sensitive = "sensitive"
data_class_name secret = "secret"
data_class_name authentication = "authentication"

abbrev pub fixed_scope_name : FixedScopeKind → String
fixed_scope_name broker_status_read = "broker.status.read"
fixed_scope_name tab_metadata_read = "tab.metadata.read"
fixed_scope_name page_a11y_read = "page.a11y.read"
fixed_scope_name page_element_inspect = "page.element.inspect"
fixed_scope_name page_scroll = "page.scroll"
fixed_scope_name page_highlight = "page.highlight"
fixed_scope_name page_screenshot_read = "page.screenshot.read"
fixed_scope_name page_click_reversible = "page.click.reversible"
fixed_scope_name page_form_draft = "page.form.draft"
fixed_scope_name page_navigate_same_origin = "page.navigate.same_origin"

abbrev data_class_index : DataClass → ℕ
data_class_index public = 0
data_class_index visible = 1
data_class_index private = 2
data_class_index sensitive = 3
data_class_index secret = 4
data_class_index authentication = 5

-- `===` on data classes, which have distinct texts.
abbrev pub same_data_class : DataClass → DataClass → Bool
same_data_class a b = data_class_index a == data_class_index b

pub same_data_class_iff : (a b : DataClass) → (same_data_class a b ≡ true) ↔ (a ≡ b)
same_data_class_iff a b = ground arith

abbrev fixed_scope_index : FixedScopeKind → ℕ
fixed_scope_index broker_status_read = 0
fixed_scope_index tab_metadata_read = 1
fixed_scope_index page_a11y_read = 2
fixed_scope_index page_element_inspect = 3
fixed_scope_index page_scroll = 4
fixed_scope_index page_highlight = 5
fixed_scope_index page_screenshot_read = 6
fixed_scope_index page_click_reversible = 7
fixed_scope_index page_form_draft = 8
fixed_scope_index page_navigate_same_origin = 9

abbrev pub same_fixed_scope : FixedScopeKind → FixedScopeKind → Bool
same_fixed_scope a b = fixed_scope_index a == fixed_scope_index b

pub same_fixed_scope_iff : (a b : FixedScopeKind) → (same_fixed_scope a b ≡ true) ↔ (a ≡ b)
same_fixed_scope_iff a b = ground arith

-- A parsed origin that is its own canonical form, over HTTPS, or over HTTP on the loopback.
unfoldable pub allowed_url : String → Url → Bool
allowed_url value parsed =
    if not (parsed.origin === value) || not (parsed.username === "") || not (parsed.password === "")
    then false
    else parsed.protocol === "https:"
      || (parsed.protocol === "http:"
          && (parsed.hostname === "localhost"
              || parsed.hostname === "127.0.0.1"
              || parsed.hostname === "[::1]"))

unfoldable pub is_allowed_origin : Platform → String → Bool
is_allowed_origin p value = elim (p.new_url value) [
  | none ↦ false
  | some parsed ↦ allowed_url value parsed
]

unfoldable pub origin_schema : Platform → String → Bool
unfolding text_length
origin_schema p value = leb (text_length value) 2048 && is_allowed_origin p value

unfoldable pub http_url : Url → Bool
http_url parsed = parsed.protocol === "https:" || parsed.protocol === "http:"

-- The refinement of `UrlSchema` runs after `url()` has failed too, and `new URL` throws a TypeError then.
unfoldable pub url_schema_throws : Platform → String → Bool
url_schema_throws p value = is_none (p.new_url value)

-- `z.string().url()` accepts what `new URL` parses. The verdict, where `url_schema_throws` is not the case.
unfoldable pub url_schema : Platform → String → Bool
unfolding text_length http_url
url_schema p value = elim (p.new_url value) [
  | none ↦ false
  | some parsed ↦ leb (text_length value) 8192 && http_url parsed
]

abbrev egress_data_class : DataClass → Bool
egress_data_class secret = false
egress_data_class authentication = false
egress_data_class _ = true

unfoldable pub scope_schema : Platform → Scope → Bool
scope_schema p (fixed kind) = true
scope_schema p (allowed_origin origin) = origin_schema p origin
scope_schema p (model_egress provider classes max_bytes) =
    identifier_schema provider
    && (leb 1 (length classes) && leb (length classes) 4 && all egress_data_class classes)
    && (leb 1 max_bytes && leb max_bytes 10000000)
scope_schema p (action_prepare types) =
    leb 1 (length types) && leb (length types) 32 && all identifier_schema types
