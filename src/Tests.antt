-- ===== src/Tests.antt =====
-- One access request, its grant and a command of apps/broker/src/broker-state.ts, requests to the policy
-- engine of packages/policy/src/engine.ts, and the theorems at them.
use tabgrant.Common.{
  find, ◌≡◌, refl, String, true, false, [], ◌∷◌, none, some, ◌===◌, if◌then◌else◌,
}
use tabgrant.Protocol.Platform.{Platform, Url}
use tabgrant.Protocol.Primitives.{fixed, FixedScopeKind, visible, private}
use tabgrant.Protocol.Access.{Capability, LeaseState}
use tabgrant.Common.{◌↔◌, All}
use tabgrant.Protocol.Actions.{
  action_schema_throws, navigate, pos, Action, ElementReference, FieldType, text_value, scroll,
  highlight, form_draft, oauth_consent,
}
use tabgrant.Protocol.Text.{codes}
use tabgrant.Protocol.Decision.{allow, allow_prepare, deny, error_code_fits}
use tabgrant.Policy.Canonicalize.{hash_action}
use tabgrant.Policy.Request.{PolicyEvaluationRequest}
use tabgrant.Policy.Permits.{Permitted, Previewed, SameContext, Fresh, DraftWithin}
use tabgrant.Policy.GrantLaws.{context_mismatch_iff}
use tabgrant.Policy.ScopeLaws.{stale_reference_iff, data_class_allowed_iff}
use tabgrant.Policy.EngineLaws.{
  evaluate_policy-allow_iff, evaluate_policy-allow_prepare_iff, evaluate_policy-carries,
  evaluate_policy-action_hash,
}
use tabgrant.Broker.Requests.{AccessParams}
use tabgrant.Broker.Dispatch.{request, Inputs, handle}
use tabgrant.Broker.Access.{IsOwned, IsLive, active_lease-IsOwned}
use tabgrant.Broker.Consent.{Consented, grant_access-Consented}
use tabgrant.Broker.Signature.{verify-issue, verify_sound}
use tabgrant.Broker.Run.{connects, calls, disconnects, started, steps}
use tabgrant.Broker.Bounds.Tame.{IsBounded}
use tabgrant.Broker.Bounds.Run.{Reachable-IsBounded}
use tabgrant.Broker.Constants.{page_scroll, page_a11y_read}
use tabgrant.Broker.Records.{
  ContextEntry, lease_has, BrokerState, initial_state, ConnectionContext, agent, browser, Result,
  ok, AccessRequest, AccessStatus, Lease,
}
use tabgrant.Broker.Grants.{PublicLease, GrantParams, GrantIds, grant_access}
use tabgrant.Broker.Commands.{scroll_by, begin_command, Forwarded}
use tabgrant.Broker.Authority.{Authorised, begin_command-Authorised}
use tabgrant.Protocol.Text.{identifier_schema, signature_schema, timestamp_schema}
use tabgrant.Protocol.Primitives.{
  allowed_url, is_allowed_origin, origin_schema, url_schema, url_schema_throws, scope_schema,
}
use tabgrant.Protocol.Access.{distinct_texts, claims_schema, capability_schema, lease_schema}
use tabgrant.Protocol.Actions.{action_schema}
use tabgrant.Policy.Request.{shaped, action_kind_of, forbidden_code_for_kind, allow_decision}
use tabgrant.Policy.Grant.{some_differ, context_mismatch, validate_grant}
use tabgrant.Policy.Scopes.{
  references_for, stale_reference, data_class_allowed, required_scope_present,
}
use tabgrant.Policy.Engine.{
  decide_by_risk, evaluate_parsed, evaluate_policy, evaluate_policy_or_throw,
}
use tabgrant.Broker.Records.{then_do, throw_if, require, audit}
use tabgrant.Broker.Lifecycle.{
  revoke_lease, is_lease_active, expire_records, session_of, browser_of, create_context,
  disconnected,
}
use tabgrant.Broker.Capability.{sign_claims, issue, hex_bytes, verify}
use tabgrant.Broker.Grants.{
  grant_params_schema, ensure_lease_capacity, capability_grant, new_lease, public_lease,
  pending_request, add_lease, agent_revoke, browser_revoke,
}
use tabgrant.Broker.Commands.{
  command_schema, active_lease, policy_request, authorize_command, deliver, answer_command,
  record_command,
}
use tabgrant.Broker.Delivery.{Delivered, answer_command-Delivered}
use tabgrant.Broker.Departure.{on_session, disconnected-Ended}
use tabgrant.Broker.Endings.{Ended, revoke_lease-Ended, Timely, expire_records-Timely}
use tabgrant.Broker.Commands.{returned}
use tabgrant.Broker.Revocation.{agent_revoke-Ended, browser_revoke-Ended}

abbrev site : Url
site = record {
  href = "https://a.test/";
  origin = "https://a.test";
  protocol = "https:";
  hostname = "a.test";
  username = "";
  password = "";
}

abbrev digest : String
digest = "0123456789abcdef0123456789abcdef0123456789abcdef0123456789abcdef"

abbrev plain : Platform
plain = record {
  new_url = λ t. if t === "https://a.test" then some site else none;
  to_lower_case = λ t. t;
  normalize_nfc = λ t. t;
  quote = λ t. t;
  sha256_hex = λ t. digest;
  hmac_sha256_hex = λ secret t. digest;
  number_text = λ n. "7";
  without_query_and_hash = λ t. t;
  is_uuid = λ t. true;
}

abbrev helper : ConnectionContext
helper = record { connection = 1; role = agent; client_id = "helper"; task_id = "task" }

abbrev chrome : ConnectionContext
chrome = record { connection = 2; role = browser; client_id = "chrome"; task_id = "browser" }

abbrev consent : GrantParams
consent = record {
  request_id = "request";
  browser_instance_id = "profile";
  tab_id = 7;
  document_id = "document";
  origin = "https://a.test";
  url = "https://a.test";
  title = "A";
  scopes = page_scroll ∷ [];
  ttl_seconds = some 60;
}

abbrev fresh_ids : GrantIds
fresh_ids = record { capability_id = "capability"; nonce = "nonce"; lease_id = "lease" }

abbrev wanted : AccessRequest
wanted = record {
  request_id = "request";
  session_id = "s1";
  client_id = "helper";
  task_id = "task";
  scopes = page_scroll ∷ page_a11y_read ∷ [];
  reason = "read the page";
  declared_model_provider = none;
  created_at = 1000;
  expires_at = 301000;
  status = AccessStatus.pending;
  terminal_at = none;
  lease_id = none;
}

-- An agent and a browser are connected, and the agent has asked for access.
abbrev asked : BrokerState
asked = record initial_state {
  access_requests = wanted ∷ [];
  browsers =
      record {
        browser_instance_id = "profile";
        connection = 2;
        browser_name = "Chrome";
        browser_version = "130";
        extension_id = "abcdefghijklmnopabcdefghijklmnop";
      }
      ∷ [];
  contexts =
      record {
        connection = 2;
        session_id = "s2";
        browser_instance_id = some "profile";
        request_window = none;
      }
      ∷ record {
        connection = 1;
        session_id = "s1";
        browser_instance_id = none;
        request_window = some (record { started_at = 1000; count = 1 });
      }
      ∷ [];
}

abbrev signed : Capability
signed = record {
  claims = record {
    version = "0.1";
    capability_id = "capability";
    issuer = "tabgrant-broker";
    client_id = "helper";
    task_id = "task";
    browser_profile_instance = "profile";
    tab_id = "7";
    document_id = "document";
    top_level_origin = "https://a.test";
    scopes = fixed FixedScopeKind.page_scroll ∷ [];
    data_classes = visible ∷ private ∷ [];
    egress_destinations = [];
    issued_at = 2000;
    expires_at = 62000;
    idle_timeout_ms = 120000;
    use_limit = 250;
    nonce = "nonce";
    audience = "helper";
    policy_version = "v0.1";
    non_delegable = true;
  };
  signature = digest;
}

abbrev scroll_lease : Lease
scroll_lease = record {
  lease_id = "lease";
  request_id = "request";
  session_id = "s1";
  client_id = "helper";
  task_id = "task";
  browser_instance_id = "profile";
  tab_id = 7;
  document_id = "document";
  origin = "https://a.test";
  url = "https://a.test";
  title = "A";
  scopes = page_scroll ∷ [];
  declared_model_provider = none;
  capability = signed;
  policy_lease = record {
    version = "0.1";
    lease_id = "lease";
    capability_id = "capability";
    client_id = "helper";
    task_id = "task";
    browser_profile_instance = "profile";
    tab_id = "7";
    document_id = "document";
    top_level_origin = "https://a.test";
    state = LeaseState.active;
    issued_at = 2000;
    expires_at = 62000;
    last_used_at = 2000;
    idle_timeout_ms = 120000;
    remaining_uses = 250;
    revoked_at = none;
    revocation_reason = none;
  };
  issued_at = 2000;
  expires_at = 62000;
  last_used_at = 2000;
  in_flight = 0;
  command_window_started_at = 2000;
  commands_in_window = 0;
  remaining_egress_bytes = 0;
  reserved_bytes = [];
  revoked_at = none;
  revoke_reason = none;
}

-- The user has granted scrolling.
abbrev given : BrokerState
given = record asked {
  access_requests =
      record wanted {
        status = AccessStatus.granted;
        terminal_at = some 2000;
        lease_id = some "lease";
      }
      ∷ [];
  leases = scroll_lease ∷ [];
}

abbrev shown_lease : PublicLease
shown_lease = record { lease = scroll_lease; url = "https://a.test"; active = true }

abbrev forwarded_scroll : Forwarded
forwarded_scroll = record { connection = 2; lease_id = "lease"; command = scroll_by (pos 100) }

abbrev sent : BrokerState × Result Forwarded
sent = begin_command plain "key" 3000 true helper "lease" (scroll_by (pos 100)) given

sent_lem : sent ≡ (sent.0, ok forwarded_scroll)
unfolding identifier_schema signature_schema timestamp_schema allowed_url is_allowed_origin
    origin_schema scope_schema distinct_texts claims_schema capability_schema lease_schema
    action_schema action_kind_of forbidden_code_for_kind allow_decision some_differ context_mismatch
    validate_grant stale_reference data_class_allowed required_scope_present decide_by_risk
    evaluate_parsed evaluate_policy then_do throw_if require disconnected issue verify
    command_schema authorize_command begin_command deliver evaluate_policy_or_throw
    action_schema_throws url_schema_throws
sent_lem = refl

begin_command-Authorised_example :
    Authorised plain "key" 3000 helper "lease" (scroll_by (pos 100)) given sent.0 forwarded_scroll
begin_command-Authorised_example =
    begin_command-Authorised plain "key" 3000 true helper "lease" (scroll_by (pos 100)) given sent.0
      forwarded_scroll sent_lem

abbrev granting : BrokerState × Result PublicLease
granting = grant_access plain "key" 2000 fresh_ids true chrome consent asked

granting_lem : granting ≡ (granting.0, ok shown_lease)
unfolding identifier_schema signature_schema timestamp_schema allowed_url is_allowed_origin
    origin_schema url_schema scope_schema distinct_texts claims_schema capability_schema then_do
    throw_if require audit disconnected issue grant_params_schema ensure_lease_capacity
    capability_grant new_lease public_lease pending_request add_lease grant_access deliver
granting_lem = refl

grant_access-Consented_example :
    Consented plain "key" 2000 fresh_ids chrome consent asked granting.0 shown_lease
grant_access-Consented_example =
    grant_access-Consented plain "key" 2000 fresh_ids true chrome consent asked granting.0
      shown_lease granting_lem

active_lem : active_lease 3000 helper "lease" given ≡ (given, ok scroll_lease)
unfolding active_lease session_of is_lease_active then_do throw_if require
active_lem = refl

active_lease-IsOwned_example :
    (given ≡ given) × IsOwned helper "lease" given scroll_lease × IsLive 3000 scroll_lease
active_lease-IsOwned_example = active_lease-IsOwned 3000 helper "lease" given active_lem

issue_lem :
    issue plain "key" (capability_grant 2000 wanted consent) "capability" "nonce" ≡ some signed
unfolding identifier_schema signature_schema timestamp_schema allowed_url is_allowed_origin
    origin_schema scope_schema distinct_texts claims_schema capability_schema issue capability_grant
issue_lem = refl

verify-issue_example : verify plain "key" signed ≡ true
verify-issue_example =
    verify-issue plain "key" (capability_grant 2000 wanted consent) "capability" "nonce" signed
      issue_lem

verified_lem : verify plain "key" signed ≡ true
unfolding identifier_schema signature_schema timestamp_schema allowed_url is_allowed_origin
    origin_schema scope_schema distinct_texts claims_schema capability_schema issue verify
verified_lem = refl

verify_sound_example :
    (capability_schema plain signed ≡ true)
    × (hex_bytes (codes signed.signature)
        ≡ hex_bytes (codes (sign_claims plain "key" signed.claims)))
verify_sound_example = verify_sound plain "key" signed verified_lem

abbrev wish : AccessParams
wish = record {
  scopes = page_scroll ∷ page_a11y_read ∷ [];
  reason = "read the page";
  declared_model_provider = none;
}

abbrev first_inputs : Inputs
first_inputs = record { now = 1000; uuid = "request"; grant_ids = fresh_ids; audit_ok = true }

abbrev greeted : BrokerState
greeted = create_context helper "s1" initial_state

abbrev requesting : BrokerState
requesting = (handle plain "key" first_inputs helper (request wish) greeted).0

Reachable-IsBounded_example : IsBounded (disconnected 2000 true helper requesting).0
Reachable-IsBounded_example =
    Reachable-IsBounded plain "key" (disconnected 2000 true helper requesting).0 (
      steps requesting _
        (steps greeted requesting
          (steps initial_state greeted started (connects helper "s1" initial_state))
          (calls first_inputs helper (request wish) greeted))
        (disconnects 2000 true helper requesting))

abbrev scroll_request : PolicyEvaluationRequest
scroll_request = policy_request plain "key" 3000 scroll_lease (scroll (pos 0) (pos 100))

scroll_request_lem : (evaluate_policy plain scroll_request).outcome ≡ allow
unfolding identifier_schema signature_schema timestamp_schema allowed_url is_allowed_origin
    origin_schema scope_schema distinct_texts claims_schema capability_schema lease_schema
    action_schema action_kind_of forbidden_code_for_kind allow_decision some_differ context_mismatch
    validate_grant stale_reference data_class_allowed required_scope_present decide_by_risk
    evaluate_parsed evaluate_policy issue verify authorize_command
scroll_request_lem = refl

abbrev submission : Action
submission = oauth_consent (record {
  client_name = "mailer";
  requested_permissions = "read" ∷ [];
  summary = "let it read";
  idempotency_key = "key";
})

abbrev consent_request : PolicyEvaluationRequest
consent_request = policy_request plain "key" 3000 scroll_lease submission

-- An address that does not parse makes the evaluation throw.
thrown_lem :
    evaluate_policy_or_throw plain (record scroll_request { action = shaped (navigate "nowhere") })
    ≡ none
unfolding evaluate_policy_or_throw action_schema_throws url_schema_throws
thrown_lem = refl

evaluate_policy-allow_iff_example :
    ((evaluate_policy plain scroll_request).outcome ≡ allow) ↔ Permitted plain scroll_request
evaluate_policy-allow_iff_example = evaluate_policy-allow_iff plain scroll_request

evaluate_policy-allow_prepare_iff_example :
    ((evaluate_policy plain consent_request).outcome ≡ allow_prepare)
    ↔ Previewed plain consent_request
evaluate_policy-allow_prepare_iff_example = evaluate_policy-allow_prepare_iff plain consent_request

evaluate_policy-carries_example :
    (error_code_fits
        (evaluate_policy plain consent_request).outcome
        (evaluate_policy plain consent_request).error_code
      ≡ true)
    × (((evaluate_policy plain consent_request).outcome ≡ deny)
        ↔ ((evaluate_policy plain consent_request).action_hash ≡ none))
evaluate_policy-carries_example = evaluate_policy-carries plain consent_request

evaluate_policy-action_hash_example :
    (evaluate_policy plain scroll_request).action_hash
    ≡ some (hash_action plain (scroll (pos 0) (pos 100)))
unfolding policy_request
evaluate_policy-action_hash_example =
    evaluate_policy-action_hash plain scroll_request (scroll (pos 0) (pos 100)) refl
      (λ d. absurd (cc (scroll_request_lem)))

context_mismatch_iff_example :
    (context_mismatch signed scroll_lease.policy_lease scroll_request.context ≡ false)
    ↔ SameContext signed scroll_lease.policy_lease scroll_request.context
context_mismatch_iff_example =
    context_mismatch_iff signed scroll_lease.policy_lease scroll_request.context

abbrev button : ElementReference
button = record {
  reference_id = "reference";
  tab_id = "7";
  document_id = "document";
  top_level_origin = "https://a.test";
  dom_epoch = 3;
  role = "button";
  accessible_name = "Send";
  value_digest = none;
  issued_at = 2000;
  expires_at = 32000;
}

stale_reference_iff_example :
    (stale_reference (highlight button) scroll_request.context ≡ false)
    ↔ All (Fresh scroll_request.context) (references_for (highlight button))
stale_reference_iff_example = stale_reference_iff (highlight button) scroll_request.context

abbrev draft : Action
draft = form_draft (
    record {
      target = button;
      field_name = "name";
      field_type = FieldType.text;
      value = text_value "Ada";
      data_class = private;
    }
    ∷ [])

data_class_allowed_iff_example : (data_class_allowed draft signed ≡ true) ↔ DraftWithin draft signed
data_class_allowed_iff_example = data_class_allowed_iff draft signed

-- The scroll is on its way.
abbrev running : BrokerState
running = record given { leases = record scroll_lease { in_flight = 1 } ∷ [] }

answered_lem :
    answer_command 4000 "lease" (scroll_by (pos 100)) (returned none) running ≡ (running, ok 0)
unfolding answer_command
answered_lem = refl

answer_command-Delivered_example :
    Delivered 4000 "lease" (scroll_by (pos 100)) (returned none) running running 0
answer_command-Delivered_example =
    answer_command-Delivered 4000 "lease" (scroll_by (pos 100)) (returned none) running running 0
      answered_lem

-- The lease is revoked while the audit record of its command is written; the result is returned all the same.
revoked_meanwhile :
    (record_command 6000 true "lease"
      (scroll_by (pos 100))
      0
      (revoke_lease 5000 "USER_REVOKED" (record scroll_lease { in_flight = 1 }) running)).1
    ≡ ok tt
unfolding record_command revoke_lease
revoked_meanwhile = refl

-- The agent's context.
abbrev helper_entry : ContextEntry
helper_entry = record {
  connection = 1;
  session_id = "s1";
  browser_instance_id = none;
  request_window = some (record { started_at = 1000; count = 1 });
}

disconnected-Ended_example : Ended "lease" (disconnected 3000 true helper given).0 9000
disconnected-Ended_example =
    disconnected-Ended 3000 true helper helper_entry "lease" scroll_lease given 9000 refl refl
      (on_session refl refl)

revoke_lease-Ended_example :
    Ended "lease" (revoke_lease 3000 "AGENT_REVOKED" scroll_lease given) 9000
revoke_lease-Ended_example = revoke_lease-Ended 3000 "AGENT_REVOKED" scroll_lease given 9000 refl

expire_records-Timely_example : All (Timely 400000) (expire_records 400000 asked).access_requests
expire_records-Timely_example = expire_records-Timely 400000 asked

abbrev given_up : BrokerState × Result String
given_up = agent_revoke plain 5000 true helper "lease" given

given_up_lem : given_up ≡ (given_up.0, ok "lease")
unfolding then_do throw_if require audit disconnected agent_revoke active_lease
given_up_lem = refl

agent_revoke-Ended_example :
    ((l : Lease) × IsOwned helper "lease" given l) × Ended "lease" given_up.0 9000
agent_revoke-Ended_example =
    agent_revoke-Ended plain 5000 true helper "lease" "lease" given given_up.0 9000 given_up_lem

abbrev taken_back : BrokerState × Result String
taken_back = browser_revoke plain 5000 true chrome "lease" "USER_REVOKED" given

taken_back_lem : taken_back ≡ (taken_back.0, ok "lease")
unfolding signature_schema then_do throw_if require audit disconnected browser_revoke
taken_back_lem = refl

browser_revoke-Ended_example :
    ((l : Lease) × (find (lease_has "lease") given.leases ≡ some l)
      × (browser_of chrome given ≡ some l.browser_instance_id))
    × Ended "lease" taken_back.0 9000
browser_revoke-Ended_example =
    browser_revoke-Ended plain 5000 true chrome "lease" "USER_REVOKED" "lease" given taken_back.0
      9000 taken_back_lem
