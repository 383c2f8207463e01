-- ===== src/Broker/Dispatch.antt =====
-- apps/broker/src/broker-state.ts: `handle`, which maintains the state and dispatches a call by the role
-- of its connection, and the read-only answers. A call that forwards a command to the browser answers
-- with what it sent; `answer_command` goes on from the browser's answer.
use tabgrant.Common.{
  ℕ, String, Bool, true, false, List, [], ◌∷◌, Option, none, some, ◌===◌, if◌then◌else◌, keep, map,
}
use tabgrant.Protocol.Platform.{Platform}
use tabgrant.Broker.Records.{
  AccessRequest, Lease, ConnectionContext, Role, agent, browser, PublicRequest, audit_event,
  refused, M, ◌>>=◌, ◌>>◌, ok, modify, throw, rpc_error, invalid_params, return, audit, get_state,
  then_do, BrowserConnection,
}
use tabgrant.Broker.Lifecycle.{session_of, is_lease_active, expire_records, maintain_state}
use tabgrant.Broker.Requests.{
  AccessParams, public_request, request_access, list_pending_requests, browser_deny,
}
use tabgrant.Broker.Grants.{
  RegisterParams, register_browser, GrantParams, GrantIds, PublicLease, public_lease, grant_access,
  agent_revoke, browser_revoke,
}
use tabgrant.Broker.Commands.{Command, Forwarded, begin_command}

-- A method with its parameters. `revoke` has the reason that only a browser gives; `misshaped` is
-- a method of the role with parameters that lack the shape of its schema.
pub data Call : Type 0 where
  broker_status access_status tabs_list pending_list : Call
  request : AccessParams → Call
  revoke : String → Option String → Call
  command : String → Command → Call
  register : RegisterParams → Call
  grant : GrantParams → Call
  deny : String → Call
  misshaped : Call
  unsupported : String → Call

pub data Answer : Type 0 where
  status_is : Role → String → String → Bool → Answer
  access_is : List PublicRequest → List PublicLease → Answer
  tabs_are : List Lease → Answer
  pending_are : List PublicRequest → Answer
  requested : PublicRequest → Answer
  leased : PublicLease → Answer
  ended : String → Answer
  forwarded : Forwarded → Answer

-- What the world supplies to one call: the time, fresh UUIDs, and whether the audit record is written.
pub record Inputs : Type 0 where
  pub now : ℕ
  pub uuid : String
  pub grant_ids : GrantIds
  pub audit_ok : Bool

abbrev has_browsers : List BrowserConnection → Bool
has_browsers [] = false
has_browsers (b ∷ bs) = true

-- `.map((lease) => this.publicLease(lease))`
abbrev pub public_leases : Platform → ℕ → List Lease → M (List PublicLease)
public_leases p now [] = return []
public_leases p now (l ∷ ls) =
    public_lease p now l >>= λ v. public_leases p now ls >>= λ vs. return (v ∷ vs)

unfoldable pub access_status_of : Platform → ℕ → ConnectionContext → M Answer
access_status_of p now context = do
  modify (expire_records now)
  session ← session_of context
  st ← get_state
  leases ← public_leases p now (keep (λ l. Lease.session_id l === session) st.leases)
  return (
      access_is
        (map public_request (keep (λ r. AccessRequest.session_id r === session) st.access_requests))
        leases)

-- `.filter((lease) => this.belongsTo(context, lease) && this.isLeaseActive(lease))`
abbrev pub active_leases : ℕ → String → List Lease → M (List Lease)
active_leases now session [] st = (st, ok [])
active_leases now session (l ∷ ls) st =
    let rest = active_leases now session ls in
    if l.session_id === session
    then (let (st', active) = is_lease_active now l st in
        then_do (rest st') (λ more. return (if active then l ∷ more else more)))
    else rest st

unfoldable pub list_granted_tabs : ℕ → ConnectionContext → M Answer
list_granted_tabs now context = do
  modify (expire_records now)
  session ← session_of context
  st ← get_state
  leases ← active_leases now session st.leases
  return (tabs_are leases)

unfoldable pub status_of : ConnectionContext → M Answer
status_of context st =
    (st, ok (status_is context.role context.client_id context.task_id (has_browsers st.browsers)))

-- The audited refusal of a method that an agent may not call.
unfoldable pub refuse_agent : Bool → ConnectionContext → String → M Answer
refuse_agent audit_ok context method = do
  audit audit_ok (record (audit_event "method.denied" refused) {
    client_id = some context.client_id;
    task_id = some context.task_id;
    method = some method;
    reason_code = some "UNKNOWN_METHOD";
  })
  throw (rpc_error "UNKNOWN_METHOD")

module _ (p : Platform) (secret : String) (i : Inputs) (context : ConnectionContext) where
  abbrev agent_revoke_call : String → Option String → M Answer
  agent_revoke_call lease_id none =
      agent_revoke p i.now i.audit_ok context lease_id >>= λ id. return (ended id)
  agent_revoke_call lease_id (some reason) = throw invalid_params

  abbrev browser_revoke_call : String → Option String → M Answer
  browser_revoke_call lease_id none = throw invalid_params
  browser_revoke_call lease_id (some reason) =
      browser_revoke p i.now i.audit_ok context lease_id reason >>= λ id. return (ended id)

  unfoldable pub handle_agent : Call → M Answer
  handle_agent (request q) =
      request_access i.now i.uuid i.audit_ok context q >>= λ r. return (requested r)
  handle_agent access_status = access_status_of p i.now context
  handle_agent (revoke lease_id reason) = agent_revoke_call lease_id reason
  handle_agent tabs_list = list_granted_tabs i.now context
  handle_agent (command lease_id c) =
      begin_command p secret i.now i.audit_ok context lease_id c >>= λ f. return (forwarded f)
  handle_agent misshaped = throw invalid_params
  handle_agent (unsupported method) = refuse_agent i.audit_ok context method
  handle_agent broker_status = status_of context
  handle_agent pending_list = refuse_agent i.audit_ok context "access.pending.list"
  handle_agent (register q) = refuse_agent i.audit_ok context "browser.register"
  handle_agent (grant q) = refuse_agent i.audit_ok context "access.grant"
  handle_agent (deny request_id) = refuse_agent i.audit_ok context "access.deny"

  unfoldable pub handle_browser : Call → M Answer
  handle_browser (register q) =
      register_browser p i.now context q >>= λ pending. return (pending_are pending)
  handle_browser pending_list =
      list_pending_requests i.now >>= λ pending. return (pending_are pending)
  handle_browser (grant q) =
      grant_access p secret i.now i.grant_ids i.audit_ok context q >>= λ l. return (leased l)
  handle_browser (deny request_id) =
      browser_deny p i.now i.audit_ok request_id >>= λ id. return (ended id)
  handle_browser (revoke lease_id reason) = browser_revoke_call lease_id reason
  handle_browser misshaped = throw invalid_params
  handle_browser broker_status = status_of context
  handle_browser _ = throw (rpc_error "UNKNOWN_METHOD")

  abbrev pub by_role : Role → Call → M Answer
  by_role agent c = handle_agent c
  by_role browser c = handle_browser c

  -- `broker.status` is answered for both roles.
  unfoldable pub handle : Call → M Answer
  unfolding handle_agent handle_browser
  handle c st = by_role context.role c (maintain_state i.now st)
