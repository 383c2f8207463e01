-- ===== src/Broker/Lifecycle.antt =====
-- apps/broker/src/broker-state.ts: how records end. `revokeLease`, `isLeaseActive`, `expireRecords`,
-- `maintainState` and `disconnected`. The clock is read once in each synchronous stretch of code.
use tabgrant.Common.{
  ℕ, ◌+◌, String, Bool, true, false, not, ◌&&◌, ◌||◌, List, [], ◌∷◌, ◌++◌, Option, none, some, leb,
  ltb, ◌==◌, ◌===◌, if◌then◌else◌, find, update, discard, keep, map,
}
use tabgrant.Protocol.Access.{PolicyLease, LeaseState}
use tabgrant.Broker.Constants.{
  lease_idle_timeout_ms, terminal_record_retention_ms, state_maintenance_interval_ms,
}
use tabgrant.Broker.Records.{
  AccessStatus, expired, revoked, is_pending, AccessRequest, Lease, ConnectionContext,
  BrowserConnection, access_revoked, audit_event, info, BrokerState, M, ◌>>=◌, ok, err, modify,
  rpc_error, request_has, lease_has, browser_has, entry_has, audit,
}

-- The status that a reason leaves behind.
abbrev pub ended_status : String → AccessStatus
ended_status reason = if reason === "LEASE_EXPIRED" then expired else revoked

abbrev revoke_policy_lease : ℕ → String → PolicyLease → PolicyLease
revoke_policy_lease now reason p =
    if reason === "LEASE_EXPIRED" then record p { state = LeaseState.expired } else record p {
      state = LeaseState.revoked;
      revoked_at = some now;
      revocation_reason = some reason;
    }

abbrev pub mark_revoked : ℕ → String → Lease → Lease
mark_revoked now reason l = record l {
  policy_lease = revoke_policy_lease now reason l.policy_lease;
  revoked_at = some now;
  revoke_reason = some reason;
}

abbrev pub close_request : ℕ → String → AccessRequest → AccessRequest
close_request now reason r = record r { status = ended_status reason; terminal_at = some now }

-- `browser?.context.peer.sendEvent(…)`
abbrev pub notify_revoked : Option BrowserConnection → String → String → BrokerState → BrokerState
notify_revoked none lease_id reason st = st
notify_revoked (some b) lease_id reason st = record st {
  sent = (b.connection, access_revoked lease_id reason) ∷ st.sent;
}

unfoldable pub revoke_lease : ℕ → String → Lease → BrokerState → BrokerState
revoke_lease now reason l st = elim l.revoked_at [
  | some at ↦ st
  | none ↦
      notify_revoked (find (browser_has l.browser_instance_id) st.browsers) l.lease_id reason
        (record st {
          leases = update (lease_has l.lease_id) (mark_revoked now reason) st.leases;
          access_requests =
              update (request_has l.request_id) (close_request now reason) st.access_requests;
        })
]

-- Why `isLeaseActive` ends an unrevoked lease.
unfoldable pub expiry_reason : ℕ → Lease → Option String
expiry_reason now l =
    if leb l.expires_at now || leb (l.last_used_at + lease_idle_timeout_ms) now
    then some "LEASE_EXPIRED"
    else if l.policy_lease.remaining_uses == 0 && l.in_flight == 0
    then some "USE_LIMIT_EXHAUSTED"
    else none

-- The loop `for (const lease of this.leases.values())` that ends each unrevoked lease for which
-- `reason_for` gives a reason.
unfoldable pub end_leases : ℕ → (Lease → Option String) → List Lease → BrokerState → BrokerState
unfolding revoke_lease
end_leases now reason_for [] st = st
end_leases now reason_for (l ∷ ls) st = elim (reason_for l) [
  | none ↦ end_leases now reason_for ls st
  | some reason ↦ end_leases now reason_for ls (revoke_lease now reason l st)
]

unfoldable pub is_lease_active : ℕ → Lease → BrokerState → BrokerState × Bool
unfolding revoke_lease expiry_reason
is_lease_active now l st = elim l.revoked_at [
  | some at ↦ (st, false)
  | none ↦ elim (expiry_reason now l) [
    | some reason ↦ (revoke_lease now reason l st, false)
    | none ↦ (st, true)
  ]
]

abbrev pub expire_request : ℕ → AccessRequest → AccessRequest
expire_request now r =
    if is_pending r.status && leb r.expires_at now
    then record r { status = expired; terminal_at = some now }
    else r

-- An unrevoked lease is ended by `isLeaseActive` for its expiry reason.
unfoldable pub expire_records : ℕ → BrokerState → BrokerState
unfolding end_leases expiry_reason
expire_records now st =
    end_leases now (expiry_reason now) st.leases
      (record st { access_requests = map (expire_request now) st.access_requests })

-- `now - RETENTION` may be negative: `t <= now - retention` is `t + retention <= now`.
abbrev pub retained_out : Option ℕ → ℕ → Bool
retained_out none now = false
retained_out (some t) now = leb (t + terminal_record_retention_ms) now

abbrev pub request_retired : ℕ → AccessRequest → Bool
request_retired now r = not (is_pending r.status) && retained_out r.terminal_at now

abbrev pub lease_retired : ℕ → Lease → Bool
lease_retired now l = retained_out l.revoked_at now

unfoldable pub maintain_state : ℕ → BrokerState → BrokerState
unfolding expire_records
maintain_state now st =
    let swept = expire_records now st in
    if ltb now swept.next_maintenance_at then swept else record swept {
      access_requests = discard (request_retired now) swept.access_requests;
      leases = discard (lease_retired now) swept.leases;
      detached = keep (lease_retired now) swept.leases ++ swept.detached;
      next_maintenance_at = now + state_maintenance_interval_ms;
    }

-- `this.sessionId(context)`
unfoldable pub session_of : ConnectionContext → M String
session_of context st = elim (find (entry_has context.connection) st.contexts) [
  | none ↦ (st, err (rpc_error "INVALID_SESSION"))
  | some entry ↦ (st, ok entry.session_id)
]

-- The mutable field `context.browserInstanceId`.
unfoldable pub browser_of : ConnectionContext → BrokerState → Option String
browser_of context st = elim (find (entry_has context.connection) st.contexts) [
  | none ↦ none
  | some entry ↦ entry.browser_instance_id
]

unfoldable pub create_context : ConnectionContext → String → BrokerState → BrokerState
create_context context uuid st = record st {
  contexts =
      record {
        connection = context.connection;
        session_id = uuid;
        browser_instance_id = none;
        request_window = none;
      }
      ∷ st.contexts;
}

abbrev pub end_session_request : ℕ → String → AccessRequest → AccessRequest
end_session_request now session r =
    if r.session_id === session && is_pending r.status
    then record r { status = revoked; terminal_at = some now }
    else r

abbrev pub of_browser : String → Lease → Option String
of_browser id l = if l.browser_instance_id === id then some "BROWSER_DISCONNECTED" else none

abbrev pub of_session : String → Lease → Option String
of_session session l = if l.session_id === session then some "AGENT_DISCONNECTED" else none

unfoldable pub browser_disconnected : ℕ → String → BrokerState → BrokerState
unfolding end_leases
browser_disconnected now id st =
    end_leases now (of_browser id) st.leases
      (record st { browsers = discard (browser_has id) st.browsers })

unfoldable pub agent_disconnected : ℕ → String → BrokerState → BrokerState
unfolding end_leases
agent_disconnected now session st =
    end_leases now (of_session session) st.leases
      (record st { access_requests = map (end_session_request now session) st.access_requests })

-- Every context comes from `createContext`, so `sessionId` does not throw here.
unfoldable pub disconnected : ℕ → Bool → ConnectionContext → M (Unit {0})
unfolding browser_disconnected agent_disconnected session_of browser_of
disconnected now audit_ok context st = elim (browser_of context st) [
  | some id ↦
      audit audit_ok (audit_event "browser.disconnected" info) (browser_disconnected now id st)
  | none ↦ (session_of context >>= λ session. modify (agent_disconnected now session)) st
]
