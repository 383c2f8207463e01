-- ===== src/Broker/Requests.antt =====
-- apps/broker/src/broker-state.ts: access requests. Their rate windows, pending limits and record
-- capacity, and the operations of the agent and the browser that only touch requests.
use tabgrant.Common.{
  ℕ, ◌+◌, ◌-◌, String, Bool, true, not, ◌&&◌, ◌||◌, List, [], ◌∷◌, ◌++◌, Option, none, some, leb,
  ltb, ◌==◌, ◌===◌, if◌then◌else◌, find, update, discard, keep, map, is_some, or_else, length, take,
  all, count_if,
}
use tabgrant.Protocol.Text.{length_within, codes, is_name_char}
use tabgrant.Protocol.Platform.{Platform}
use tabgrant.Broker.Constants.{
  ImplementedScope, data_egress_model, access_pending_global_limit,
  access_pending_per_session_limit, access_request_rate_window_ms, access_request_record_limit,
  access_requests_global_window, access_requests_per_session_window, access_request_ttl_ms,
}
use tabgrant.Broker.Records.{
  pending, denied, is_pending, AccessRequest, FixedWindow, ConnectionContext, ContextEntry,
  BrowserConnection, PublicRequest, PeerEvent, access_requested, AuditEvent, audit_event, info,
  refused, BrokerState, M, ◌>>=◌, ◌>>◌, ok, err, modify, throw_if, rpc_error, invalid_params,
  return, request_has, entry_has, audit, includes_scope, unique_scopes, then_do,
}
use tabgrant.Broker.Lifecycle.{expire_records, session_of}

-- The parameters of `access.request`; the reason is trimmed.
pub record AccessParams : Type 0 where
  pub scopes : List ImplementedScope
  pub reason : String
  pub declared_model_provider : Option String

abbrev provider_schema : Option String → Bool
provider_schema none = true
provider_schema (some s) = length_within 1 128 s && all is_name_char (codes s)

unfoldable pub access_params_schema : AccessParams → Bool
access_params_schema q =
    (leb 1 (length q.scopes) && leb (length q.scopes) 7)
    && length_within 1 240 q.reason
    && provider_schema q.declared_model_provider
    && (not (includes_scope q.scopes data_egress_model) || is_some q.declared_model_provider)

unfoldable pub reset_window_if_needed : ℕ → FixedWindow → FixedWindow
reset_window_if_needed now w =
    if w.started_at == 0
      || ltb now w.started_at
      || leb access_request_rate_window_ms (now - w.started_at)
    then record { started_at = now; count = 0 }
    else w

-- The session's window, created on its first request.
abbrev pub current_window : ℕ → Option FixedWindow → FixedWindow
current_window now none = record { started_at = now; count = 0 }
current_window now (some w) = reset_window_if_needed now w

abbrev pub session_window : ℕ → List ContextEntry → ℕ → FixedWindow
session_window now entries c = elim (find (entry_has c) entries) [
  | none ↦ record { started_at = now; count = 0 }
  | some entry ↦ current_window now entry.request_window
]

abbrev pub store_window : ℕ → FixedWindow → List ContextEntry → List ContextEntry
store_window c w = update (entry_has c) (λ e. record e { request_window = some w })

abbrev pub bump : FixedWindow → FixedWindow
bump w = record w { count = w.count + 1 }

unfoldable pub reserve_access_request_rate : ℕ → ConnectionContext → M (Unit {0})
unfolding reset_window_if_needed
reserve_access_request_rate now context st =
    let own = session_window now st.contexts context.connection in
    let shared = reset_window_if_needed now st.global_request_window in
    let reset = record st {
      contexts = store_window context.connection own st.contexts;
      global_request_window = shared;
    } in
    if leb access_requests_per_session_window own.count
    then (reset, err (rpc_error "ACCESS_REQUEST_RATE_LIMIT"))
    else if leb access_requests_global_window shared.count
    then (reset, err (rpc_error "GLOBAL_ACCESS_REQUEST_RATE_LIMIT"))
    else (
      record reset {
        contexts = store_window context.connection (bump own) reset.contexts;
        global_request_window = bump shared;
      },
      ok tt,
    )

-- How many requests are pending, in all and of one session.
abbrev pub counts_globally : AccessRequest → Bool
counts_globally r = is_pending r.status

abbrev pub counts_for : String → AccessRequest → Bool
counts_for session r = is_pending r.status && r.session_id === session

unfoldable pub global_pending : List AccessRequest → ℕ
global_pending rs = count_if counts_globally rs

unfoldable pub session_pending : String → List AccessRequest → ℕ
session_pending session rs = count_if (counts_for session) rs

-- `terminalAt ?? createdAt`
abbrev ended_at : AccessRequest → ℕ
ended_at r = or_else r.terminal_at r.created_at

insert_ended : AccessRequest → List AccessRequest → List AccessRequest
insert_ended r [] = r ∷ []
insert_ended r (s ∷ rest) =
    let later = insert_ended r rest in
    if leb (ended_at r) (ended_at s) then r ∷ s ∷ rest else s ∷ later

-- `Array.prototype.sort` is stable.
unfoldable pub sort_ended : List AccessRequest → List AccessRequest
unfolding insert_ended
sort_ended [] = []
sort_ended (r ∷ rest) = insert_ended r (sort_ended rest)

-- The loop that deletes ended requests until there is room.
unfoldable pub evict_requests : List AccessRequest → M (Unit {0})
evict_requests [] st = (st, err (rpc_error "ACCESS_RECORD_CAPACITY"))
evict_requests (r ∷ rest) st =
    let smaller = record st {
      access_requests = discard (request_has r.request_id) st.access_requests;
    } in
    let more = evict_requests rest smaller in
    if ltb (length smaller.access_requests) access_request_record_limit
    then (smaller, ok tt)
    else more

unfoldable pub ensure_access_request_capacity : M (Unit {0})
unfolding evict_requests sort_ended
ensure_access_request_capacity st =
    if ltb (length st.access_requests) access_request_record_limit
    then (st, ok tt)
    else evict_requests (sort_ended (keep (λ r. not (is_pending r.status)) st.access_requests)) st

abbrev pub public_request : AccessRequest → PublicRequest
public_request r = record {
  request_id = r.request_id;
  client_id = r.client_id;
  task_id = r.task_id;
  scopes = r.scopes;
  reason = r.reason;
  declared_model_provider = r.declared_model_provider;
  status = r.status;
  expires_at = r.expires_at;
  lease_id = r.lease_id;
}

abbrev pub audit_request : String → AuditEvent → AccessRequest → AuditEvent
audit_request event base r = record base {
  event = event;
  client_id = some r.client_id;
  task_id = some r.task_id;
}

unfoldable pub new_request : ℕ → String → String → ConnectionContext → AccessParams → AccessRequest
new_request now uuid session context q = record {
  request_id = uuid;
  session_id = session;
  client_id = context.client_id;
  task_id = context.task_id;
  scopes = unique_scopes q.scopes;
  reason = q.reason;
  declared_model_provider = q.declared_model_provider;
  created_at = now;
  expires_at = now + access_request_ttl_ms;
  status = pending;
  terminal_at = none;
  lease_id = none;
}

abbrev announce :
    AccessRequest → List BrowserConnection → List (ℕ × PeerEvent) → List (ℕ × PeerEvent)
announce r [] sent = sent
announce r (b ∷ bs) sent =
    announce r bs ((b.connection, access_requested (public_request r)) ∷ sent)

-- `this.accessRequests.set(id, request)` under a new id, and the event to every browser.
unfoldable pub add_request : AccessRequest → BrokerState → BrokerState
add_request r st = record st {
  access_requests = st.access_requests ++ r ∷ [];
  sent = announce r st.browsers st.sent;
}

unfoldable pub check_pending : String → M (Unit {0})
unfolding global_pending session_pending
check_pending session st =
    if leb access_pending_per_session_limit (session_pending session st.access_requests)
    then (st, err (rpc_error "SESSION_PENDING_LIMIT"))
    else if leb access_pending_global_limit (global_pending st.access_requests)
    then (st, err (rpc_error "GLOBAL_PENDING_LIMIT"))
    else (st, ok tt)

unfoldable pub request_access :
    ℕ → String → Bool → ConnectionContext → AccessParams → M PublicRequest
request_access now uuid audit_ok context q = do
  throw_if (not (access_params_schema q)) invalid_params
  modify (expire_records now)
  reserve_access_request_rate now context
  session ← session_of context
  check_pending session
  ensure_access_request_capacity
  let r = new_request now uuid session context q
  modify (add_request r)
  audit audit_ok (audit_request "access.requested" (audit_event "access.requested" info) r)
  return (public_request r)

-- `access.pending.list`
unfoldable pub list_pending_requests : ℕ → M (List PublicRequest)
list_pending_requests now st =
    let swept = expire_records now st in
    (
      swept,
      ok (
          map public_request (
            take access_pending_global_limit
              (keep (λ r. is_pending r.status) swept.access_requests))),
    )

abbrev pub deny_request : ℕ → AccessRequest → AccessRequest
deny_request now r = record r { status = denied; terminal_at = some now }

unfoldable pub deny_pending : ℕ → Bool → String → M String
deny_pending now audit_ok request_id st = elim (find (request_has request_id) st.access_requests) [
  | none ↦ (st, err (rpc_error "ACCESS_REQUEST_NOT_PENDING"))
  | some r ↦
      if not (is_pending r.status)
      then (st, err (rpc_error "ACCESS_REQUEST_NOT_PENDING"))
      else then_do
          (audit audit_ok (audit_request "access.denied" (audit_event "access.denied" refused) r)
            (record st {
              access_requests =
                  update (request_has request_id) (deny_request now) st.access_requests;
            }))
          (λ _. return r.request_id)
]

-- `access.deny`: the identifier of the request that was denied.
unfoldable pub browser_deny : Platform → ℕ → Bool → String → M String
unfolding deny_pending
browser_deny p now audit_ok request_id = do
  throw_if (not (Platform.is_uuid p request_id)) invalid_params
  deny_pending now audit_ok request_id
