-- ===== src/Broker/Grants.antt =====
-- apps/broker/src/broker-state.ts: `registerBrowser`, `grantAccess`, `browserRevoke`, `agentRevoke`, and
-- the views of leases.
use tabgrant.Common.{
  ℕ, ◌+◌, ◌*◌, ◌/◌, String, Bool, true, false, not, ◌&&◌, ◌||◌, List, [], ◌∷◌, ◌++◌, Option, none,
  some, leb, ltb, ◌==◌, ◌===◌, if◌then◌else◌, find, update, discard, keep, is_some, or_else, length,
  any, min,
}
use tabgrant.Protocol.Text.{length_within, codes}
use tabgrant.Protocol.Platform.{Platform, Url}
use tabgrant.Protocol.Primitives.{origin_schema, http_url}
use tabgrant.Protocol.Access.{Capability, PolicyLease, LeaseState}
use tabgrant.Broker.Constants.{
  ImplementedScope, data_egress_model, default_lease_ttl_ms, max_lease_ttl_ms, lease_use_limit,
  lease_idle_timeout_ms, lease_egress_budget_bytes, lease_record_limit,
}
use tabgrant.Broker.Records.{
  granted, expired, is_pending, AccessRequest, Lease, ConnectionContext, BrowserConnection,
  PublicRequest, AuditEvent, audit_event, info, allowed, BrokerState, M, ◌>>=◌, ◌>>◌, ok, err,
  modify, require, throw_if, rpc_error, invalid_params, internal_failure, return, request_has,
  lease_has, browser_has, entry_has, audit, get_state, includes_scope, unique_scopes,
}
use tabgrant.Broker.Lifecycle.{browser_of, session_of, is_lease_active, revoke_lease}
use tabgrant.Broker.Requests.{list_pending_requests}
use tabgrant.Broker.Capability.{CapabilityGrant, issue}

pub record RegisterParams : Type 0 where
  pub browser_instance_id : String
  pub extension_id : String
  pub browser_name : String
  pub browser_version : String

-- The schema's regular expression for extension identifiers, and the name lengths.
abbrev pub register_params_schema : Platform → RegisterParams → Bool
register_params_schema p q =
    Platform.is_uuid p q.browser_instance_id
    && (length (codes q.extension_id) == 32
        && not (any (λ c. ltb c b'a' || ltb b'p' c) (codes q.extension_id)))
    && length_within 1 64 q.browser_name
    && length_within 1 64 q.browser_version

abbrev pub set_browser : BrowserConnection → List BrowserConnection → List BrowserConnection
set_browser b bs =
    if any (browser_has b.browser_instance_id) bs
    then update (browser_has b.browser_instance_id) (λ _. b) bs
    else bs ++ b ∷ []

unfoldable pub register_browser :
    Platform → ℕ → ConnectionContext → RegisterParams → M (List PublicRequest)
register_browser p now context q = do
  throw_if (not (register_params_schema p q)) invalid_params
  modify λ st. record st {
    contexts =
        update (entry_has context.connection)
          (λ e. record e { browser_instance_id = some q.browser_instance_id }) st.contexts;
    browsers =
        set_browser
          (record {
            browser_instance_id = q.browser_instance_id;
            connection = context.connection;
            browser_name = q.browser_name;
            browser_version = q.browser_version;
            extension_id = q.extension_id;
          })
          st.browsers;
  }
  list_pending_requests now

pub record GrantParams : Type 0 where
  pub request_id : String
  pub browser_instance_id : String
  pub tab_id : ℕ
  pub document_id : String
  pub origin : String
  pub url : String
  pub title : String
  pub scopes : List ImplementedScope
  pub ttl_seconds : Option ℕ

abbrev ttl_schema : Option ℕ → Bool
ttl_schema none = true
ttl_schema (some s) = leb 30 s && leb s 600

unfoldable pub grant_params_schema : Platform → GrantParams → Bool
grant_params_schema p q =
    p.is_uuid q.request_id
    && Platform.is_uuid p q.browser_instance_id
    && length_within 1 128 q.document_id
    && origin_schema p q.origin
    && (is_some (p.new_url q.url) && length_within 0 2048 q.url)
    && length_within 0 256 q.title
    && (leb 1 (length q.scopes) && leb (length q.scopes) 7)
    && ttl_schema q.ttl_seconds

-- `revokedAt ?? 0`
abbrev lease_ended_at : Lease → ℕ
lease_ended_at l = or_else l.revoked_at 0

insert_ended_lease : Lease → List Lease → List Lease
insert_ended_lease l [] = l ∷ []
insert_ended_lease l (m ∷ rest) =
    let later = insert_ended_lease l rest in
    if leb (lease_ended_at l) (lease_ended_at m) then l ∷ m ∷ rest else m ∷ later

unfoldable pub sort_ended_leases : List Lease → List Lease
unfolding insert_ended_lease
sort_ended_leases [] = []
sort_ended_leases (l ∷ rest) = insert_ended_lease l (sort_ended_leases rest)

unfoldable pub evict_leases : List Lease → M (Unit {0})
evict_leases [] st = (st, err (rpc_error "LEASE_RECORD_CAPACITY"))
evict_leases (l ∷ rest) st =
    let smaller = record st {
      leases = discard (lease_has l.lease_id) st.leases;
      detached = l ∷ st.detached;
    } in
    let more = evict_leases rest smaller in
    if ltb (length smaller.leases) lease_record_limit then (smaller, ok tt) else more

unfoldable pub ensure_lease_capacity : M (Unit {0})
unfolding evict_leases sort_ended_leases
ensure_lease_capacity st =
    if ltb (length st.leases) lease_record_limit
    then (st, ok tt)
    else evict_leases (sort_ended_leases (keep (λ l. is_some l.revoked_at) st.leases)) st

-- What the three calls of `randomUUID` of one grant return.
pub record GrantIds : Type 0 where
  pub capability_id : String
  pub nonce : String
  pub lease_id : String

abbrev pub lease_expiry : ℕ → Option ℕ → ℕ
lease_expiry now ttl = now + min (or_else ttl (default_lease_ttl_ms / 1000) * 1000) max_lease_ttl_ms

unfoldable pub capability_grant : ℕ → AccessRequest → GrantParams → CapabilityGrant
capability_grant now r q = record {
  client_id = r.client_id;
  task_id = r.task_id;
  browser_instance_id = q.browser_instance_id;
  tab_id = q.tab_id;
  document_id = q.document_id;
  origin = q.origin;
  scopes = unique_scopes q.scopes;
  declared_model_provider = r.declared_model_provider;
  issued_at = now;
  expires_at = lease_expiry now q.ttl_seconds;
  use_limit = lease_use_limit;
}

unfoldable pub new_policy_lease :
    Platform → ℕ → AccessRequest → GrantParams → Capability → GrantIds → PolicyLease
new_policy_lease p now r q c ids = record {
  version = "0.1";
  lease_id = ids.lease_id;
  capability_id = c.capability_id;
  client_id = r.client_id;
  task_id = r.task_id;
  browser_profile_instance = q.browser_instance_id;
  tab_id = p.number_text q.tab_id;
  document_id = q.document_id;
  top_level_origin = q.origin;
  state = LeaseState.active;
  issued_at = now;
  expires_at = lease_expiry now q.ttl_seconds;
  last_used_at = now;
  idle_timeout_ms = lease_idle_timeout_ms;
  remaining_uses = c.use_limit;
  revoked_at = none;
  revocation_reason = none;
}

unfoldable pub new_lease :
    Platform → ℕ → AccessRequest → GrantParams → Capability → GrantIds → Lease
unfolding new_policy_lease
new_lease p now r q c ids = record {
  lease_id = ids.lease_id;
  request_id = r.request_id;
  session_id = r.session_id;
  client_id = r.client_id;
  task_id = r.task_id;
  browser_instance_id = q.browser_instance_id;
  tab_id = q.tab_id;
  document_id = q.document_id;
  origin = q.origin;
  url = q.url;
  title = q.title;
  scopes = unique_scopes q.scopes;
  declared_model_provider = r.declared_model_provider;
  capability = c;
  policy_lease = new_policy_lease p now r q c ids;
  issued_at = now;
  expires_at = lease_expiry now q.ttl_seconds;
  last_used_at = now;
  in_flight = 0;
  command_window_started_at = now;
  commands_in_window = 0;
  remaining_egress_bytes =
      if includes_scope q.scopes data_egress_model then lease_egress_budget_bytes else 0;
  reserved_bytes = [];
  revoked_at = none;
  revoke_reason = none;
}

-- A lease as a peer sees it; `active` is read last and may end the lease.
pub record PublicLease : Type 0 where
  pub lease : Lease
  pub url : String
  pub active : Bool

unfoldable pub public_lease : Platform → ℕ → Lease → M PublicLease
public_lease p now l st =
    let (st', active) = is_lease_active now l st in
    (
      st',
      ok (record {
        lease = or_else (find (lease_has l.lease_id) st'.leases) l;
        url = p.without_query_and_hash l.url;
        active = active;
      }),
    )

abbrev pub same_option : Option String → String → Bool
same_option none b = false
same_option (some a) b = a === b

abbrev pub expire_pending : ℕ → AccessRequest → AccessRequest
expire_pending now r = record r { status = expired; terminal_at = some now }

abbrev pub grant_request : ℕ → String → AccessRequest → AccessRequest
grant_request now lease_id r = record r {
  status = granted;
  terminal_at = some now;
  lease_id = some lease_id;
}

-- The URL is of the granted origin, over HTTP or HTTPS; the schema has checked that it parses.
abbrev pub url_matches : Option Url → String → Bool
url_matches none origin = false
url_matches (some u) origin = u.origin === origin && http_url u

abbrev pub audit_lease : AuditEvent → Lease → AuditEvent
audit_lease base l = record base {
  client_id = some l.client_id;
  task_id = some l.task_id;
  lease_id = some l.lease_id;
  origin = some l.origin;
}

-- The pending request of a grant; one that has run out is ended.
unfoldable pub pending_request : ℕ → String → M AccessRequest
pending_request now request_id st = elim (find (request_has request_id) st.access_requests) [
  | none ↦ (st, err (rpc_error "ACCESS_REQUEST_NOT_PENDING"))
  | some r ↦
      if not (is_pending r.status)
      then (st, err (rpc_error "ACCESS_REQUEST_NOT_PENDING"))
      else if leb r.expires_at now
      then (
        record st {
          access_requests = update (request_has request_id) (expire_pending now) st.access_requests;
        },
        err (rpc_error "ACCESS_REQUEST_EXPIRED"),
      )
      else (st, ok r)
]

unfoldable pub add_lease : ℕ → String → Lease → BrokerState → BrokerState
add_lease now request_id l st = record st {
  access_requests =
      update (request_has request_id) (grant_request now l.lease_id) st.access_requests;
  leases = st.leases ++ l ∷ [];
}

unfoldable pub grant_access :
    Platform → String → ℕ → GrantIds → Bool → ConnectionContext → GrantParams → M PublicLease
grant_access p secret now ids audit_ok context q = do
  throw_if (not (grant_params_schema p q)) invalid_params
  st ← get_state
  throw_if (not (same_option (browser_of context st) q.browser_instance_id))
      (rpc_error "BROWSER_ID_MISMATCH")
  r ← pending_request now q.request_id
  throw_if (any (λ s. not (includes_scope r.scopes s)) q.scopes) (rpc_error "SCOPE_ESCALATION")
  throw_if (not (url_matches (p.new_url q.url) q.origin)) (rpc_error "ORIGIN_MISMATCH")
  ensure_lease_capacity
  c ←
      require (issue p secret (capability_grant now r q) ids.capability_id ids.nonce)
        internal_failure
  let l = new_lease p now r q c ids
  modify (add_lease now q.request_id l)
  audit audit_ok (audit_lease (audit_event "access.granted" allowed) l)
  public_lease p now l

-- `requireOwnedLease(context, leaseId, false)`
unfoldable pub owned_lease : ConnectionContext → String → M Lease
owned_lease context lease_id = do
  st ← get_state
  l ← require (find (lease_has lease_id) st.leases) (rpc_error "LEASE_NOT_FOUND")
  session ← session_of context
  throw_if (not (l.session_id === session)) (rpc_error "LEASE_NOT_FOUND")
  return l

unfoldable pub agent_revoke : Platform → ℕ → Bool → ConnectionContext → String → M String
agent_revoke p now audit_ok context lease_id = do
  throw_if (not (Platform.is_uuid p lease_id)) invalid_params
  l ← owned_lease context lease_id
  modify (revoke_lease now "AGENT_REVOKED" l)
  audit audit_ok (audit_lease (audit_event "access.revoked" info) l)
  return lease_id

unfoldable pub browser_revoke : Platform → ℕ → Bool → ConnectionContext → String → String → M String
browser_revoke p now audit_ok context lease_id reason = do
  throw_if (not (Platform.is_uuid p lease_id && length_within 1 64 reason)) invalid_params
  st ← get_state
  l ← require (find (lease_has lease_id) st.leases) (rpc_error "LEASE_NOT_FOUND")
  throw_if (not (same_option (browser_of context st) l.browser_instance_id))
      (rpc_error "LEASE_NOT_FOUND")
  modify (revoke_lease now reason l)
  audit audit_ok
      (record (audit_lease (audit_event "access.revoked" info) l) { reason_code = some reason })
  return l.lease_id
