-- ===== src/Broker/Commands.antt =====
-- apps/broker/src/broker-state.ts: browser commands. A command runs in synchronous stretches:
-- `begin_command` up to the request to the browser, `answer_command` from its result to the audit record, and
-- `record_command` and `fail_command` from there on. Other operations may run in between.
use tabgrant.Common.{
  ℕ, ◌+◌, ◌-◌, String, Bool, true, false, not, ◌&&◌, ◌||◌, List, [], ◌∷◌, any, Option, none, some,
  leb, ltb, ◌==◌, ◌===◌, if◌then◌else◌, find, update, is_none, is_some, or_else,
}
use tabgrant.Protocol.Text.{length_within}
use tabgrant.Protocol.Platform.{Platform, Url}
use tabgrant.Protocol.Primitives.{http_url}
use tabgrant.Protocol.Actions.{ℤ, pos, magnitude_within, Action, a11y_read, scroll, navigate}
use tabgrant.Protocol.Decision.{PolicyDecision, Outcome, allow, BrokerErrorCode, error_code_text}
use tabgrant.Policy.Request.{PolicyEvaluationRequest, PolicyContext, malformed, shaped, prepare}
use tabgrant.Policy.Engine.{evaluate_policy_or_throw}
use tabgrant.Broker.Constants.{
  ImplementedScope, page_a11y_read, page_highlight, page_scroll, page_navigate_same_origin,
  data_egress_model, lease_command_window_ms, lease_commands_per_window, lease_max_in_flight,
  snapshot_max_result_bytes,
}
use tabgrant.Broker.Records.{
  Lease, ConnectionContext, AuditEvent, audit_event, allowed, refused, BrokerState, M, ◌>>=◌, ◌>>◌,
  Result, ok, err, throw, throw_if, BrokerError, rpc_error, invalid_params, internal_failure,
  return, lease_has, browser_has, audit, includes_scope, then_do,
}
use tabgrant.Broker.Lifecycle.{is_lease_active, revoke_lease}
use tabgrant.Broker.Capability.{verify}
use tabgrant.Broker.Grants.{owned_lease, audit_lease}

-- The command with its arguments, as they leave the parameter schemas.
pub data Command : Type 0 where
  snapshot : ℕ → Command
  highlight : String → ℕ → Command
  scroll_by : ℤ → Command
  navigate_to : String → Command

abbrev pub command_name : Command → String
command_name (snapshot max_nodes) = "snapshot"
command_name (highlight reference epoch) = "highlight"
command_name (scroll_by delta) = "scroll"
command_name (navigate_to address) = "navigate"

unfoldable pub command_schema : Platform → Command → Bool
command_schema p (snapshot max_nodes) = leb 1 max_nodes && leb max_nodes 500
command_schema p (highlight reference epoch) = length_within 1 64 reference
command_schema p (scroll_by delta) = magnitude_within 2000 delta
command_schema p (navigate_to address) = is_some (p.new_url address) && length_within 0 2048 address

-- `requireOwnedLease(context, leaseId)`: owned, and still active.
unfoldable pub active_lease : ℕ → ConnectionContext → String → M Lease
unfolding owned_lease
active_lease now context lease_id = do
  l ← owned_lease context lease_id
  λ st.
      let (st', active) = is_lease_active now l st in
      let current = or_else (find (lease_has lease_id) st'.leases) l in
      if active then (st', ok l) else (
        st',
        err (
            rpc_error (
              or_else current.revoke_reason
                (if is_none current.revoked_at then "LEASE_EXPIRED" else "USER_REVOKED"))),
      )

abbrev pub require_scope : Lease → ImplementedScope → M (Unit {0})
require_scope l scope = throw_if (not (includes_scope l.scopes scope)) (rpc_error "SCOPE_REQUIRED")

-- `actionForCommand`: `none` is `undefined`. The arguments have passed the command's schema.
unfoldable pub action_for_command : Command → Option Action
action_for_command (snapshot max_nodes) = some (a11y_read max_nodes)
action_for_command (scroll_by delta) = some (scroll (pos 0) delta)
action_for_command (navigate_to address) = some (navigate address)
action_for_command (highlight reference epoch) = none

unfoldable pub policy_context : Platform → String → ℕ → Lease → PolicyContext
policy_context p secret now l = record {
  now = now;
  client_id = l.client_id;
  task_id = l.task_id;
  browser_profile_instance = l.browser_instance_id;
  tab_id = p.number_text l.tab_id;
  document_id = l.document_id;
  top_level_origin = l.origin;
  audience = l.client_id;
  policy_version = "v0.1";
  current_dom_epoch = none;
  capability_signature_verified = verify p secret l.capability;
  approval_signature_verified = none;
  enterprise_allowed = some true;
  rate_limit_allowed = some (ltb 0 l.policy_lease.remaining_uses);
  state_witness_hash = none;
  prepared = none;
}

unfoldable pub policy_request : Platform → String → ℕ → Lease → Action → PolicyEvaluationRequest
unfolding policy_context
policy_request p secret now l a = record {
  phase = prepare;
  action = shaped a;
  capability = shaped l.capability;
  lease = shaped l.policy_lease;
  approval = malformed none;
  context = policy_context p secret now l;
}

abbrev pub is_allow : Outcome → Bool
is_allow allow = true
is_allow _ = false

-- `decision.errorCode ?? "POLICY_DENIED"`
abbrev pub policy_error : Option BrokerErrorCode → BrokerError
policy_error none = rpc_error "POLICY_DENIED"
policy_error (some code) = rpc_error (error_code_text code)

-- A denial is thrown; the TypeError of `evaluatePolicy` passes through.
abbrev pub follow_decision : Option PolicyDecision → M (Unit {0})
follow_decision none = throw internal_failure
follow_decision (some decision) =
    throw_if (not (is_allow decision.outcome)) (policy_error decision.error_code)

module _ (p : Platform) (secret : String) where
  unfoldable pub authorize_command : ℕ → Lease → Command → M (Unit {0})
  unfolding action_for_command policy_request
  authorize_command now l command = elim (action_for_command command) [
    | none ↦ require_scope l page_highlight
    | some a ↦ follow_decision (evaluate_policy_or_throw p (policy_request p secret now l a))
  ]

abbrev pub set_lease : String → (Lease → Lease) → BrokerState → BrokerState
set_lease lease_id f st = record st { leases = update (lease_has lease_id) f st.leases }

-- The command window after its reset.
abbrev pub open_window : ℕ → Lease → Lease
open_window now l =
    if leb lease_command_window_ms (now - l.command_window_started_at)
    then record l { command_window_started_at = now; commands_in_window = 0 }
    else l

abbrev pub reserve_one : ℕ → Lease → Lease
reserve_one now l = record l {
  policy_lease = record (l.policy_lease) {
    last_used_at = now;
    remaining_uses = l.policy_lease.remaining_uses - 1;
  };
  last_used_at = now;
  in_flight = l.in_flight + 1;
  commands_in_window = l.commands_in_window + 1;
}

unfoldable pub reserve_command : ℕ → Lease → M (Unit {0})
reserve_command now l st =
    if leb lease_max_in_flight l.in_flight
    then (st, err (rpc_error "LEASE_CONCURRENCY_LIMIT"))
    else let opened = open_window now l in
      let st' = set_lease l.lease_id (open_window now) st in
      if leb lease_commands_per_window opened.commands_in_window
      then (st', err (rpc_error "LEASE_RATE_LIMIT"))
      else if opened.policy_lease.remaining_uses == 0
      then (st', err (rpc_error "USE_LIMIT_EXHAUSTED"))
      else (set_lease l.lease_id (reserve_one now) st', ok tt)

-- `error instanceof BrokerRpcError ? error.code : "BROWSER_COMMAND_FAILED"`
abbrev error_code_of : BrokerError → String
error_code_of (rpc_error code) = code
error_code_of _ = "BROWSER_COMMAND_FAILED"

abbrev pub audit_command : Command → AuditEvent → Lease → AuditEvent
audit_command command base l = record (audit_lease base l) { method = some (command_name command) }

abbrev pub denied_event : Command → BrokerError → Lease → AuditEvent
denied_event command e l =
    record (audit_command command (audit_event "browser.command" refused) l) {
      reason_code = some (error_code_of e);
    }

-- `catch (error) { await this.auditCommandDenied(…); throw error; }`
abbrev pub audit_and_rethrow :
    {A : Type 0} → Bool → Command → Lease → BrokerState × Result A → BrokerState × Result A
audit_and_rethrow audit_ok command l (st, ok a) = (st, ok a)
audit_and_rethrow audit_ok command l (st, err e) =
    then_do (audit audit_ok (denied_event command e l) st) (λ _. throw e)

module _ (p : Platform) where
  -- The parameter schema has checked that the URL parses.
  abbrev pub check_destination : Option Url → Lease → M Command
  check_destination none l st = (st, err invalid_params)
  check_destination (some u) l st =
      if not (u.origin === l.origin) || not (http_url u)
      then (st, err (rpc_error "ORIGIN_CHANGED"))
      else (st, ok (navigate_to u.href))

  -- The scopes that `execute` wants, and the destination that `navigate` wants.
  unfoldable pub check_scopes : Lease → Command → M Command
  check_scopes l (snapshot max_nodes) = do
    require_scope l page_a11y_read
    require_scope l data_egress_model
    return (snapshot max_nodes)
  check_scopes l (highlight reference epoch) = do
    require_scope l page_highlight
    return (highlight reference epoch)
  check_scopes l (scroll_by delta) = do require_scope l page_scroll; return (scroll_by delta)
  check_scopes l (navigate_to address) = do
    require_scope l page_navigate_same_origin
    check_destination (p.new_url address) l

-- The request that goes to the browser, with the lease as it is then.
pub record Forwarded : Type 0 where
  pub connection : ℕ
  pub lease_id : String
  pub command : Command

module _ (p : Platform) (secret : String) where
  -- `executeWithLease` up to `peer.request`.
  unfoldable pub start_command : ℕ → Bool → Lease → Command → M Forwarded
  unfolding reserve_command
  start_command now audit_ok l command st =
      elim (find (browser_has l.browser_instance_id) st.browsers) [
        | none ↦
            (revoke_lease now "BROWSER_DISCONNECTED" l st, err (rpc_error "BROWSER_DISCONNECTED"))
        | some b ↦
            then_do
              (audit_and_rethrow audit_ok command l (
                then_do (authorize_command p secret now l command st) (λ _. reserve_command now l)))
              (λ _.
                return
                  (record { connection = b.connection; lease_id = l.lease_id; command = command }))
      ]

  unfoldable pub begin_command : ℕ → Bool → ConnectionContext → String → Command → M Forwarded
  unfolding active_lease check_scopes start_command
  begin_command now audit_ok context lease_id command = do
    throw_if (not (Platform.is_uuid p lease_id && command_schema p command)) invalid_params
    l ← active_lease now context lease_id
    checked ← check_scopes p l command
    start_command now audit_ok l checked

-- What comes back from the browser: an error of the request, or a result with the byte length of its
-- JSON text, `none` where it has none.
pub data BrowserResult : Type 0 where
  failed : BrokerError → BrowserResult
  returned : Option ℕ → BrowserResult

abbrev pub is_snapshot : Command → Bool
is_snapshot (snapshot max_nodes) = true
is_snapshot _ = false

-- `reserved_bytes` are the values of `reservedEgressBytes` in the running commands of the lease.
abbrev pub take_egress : ℕ → Lease → Lease
take_egress bytes l = record l {
  remaining_egress_bytes = l.remaining_egress_bytes - bytes;
  reserved_bytes = bytes ∷ l.reserved_bytes;
}

-- One reservation of these bytes fewer.
abbrev pub forget_bytes : ℕ → List ℕ → List ℕ
forget_bytes n [] = []
forget_bytes n (x ∷ xs) = let rest = forget_bytes n xs in if x == n then xs else x ∷ rest

abbrev pub has_bytes : ℕ → List ℕ → Bool
has_bytes n = any (λ x. x == n)

-- `lease.remainingEgressBytes += reservedEgressBytes` of a command that reserved them.
abbrev pub give_egress : ℕ → Lease → Lease
give_egress bytes l =
    if has_bytes bytes l.reserved_bytes
    then record l {
      remaining_egress_bytes = l.remaining_egress_bytes + bytes;
      reserved_bytes = forget_bytes bytes l.reserved_bytes;
    }
    else l

-- The command returns, and its reservation is spent.
abbrev pub spend_egress : ℕ → Lease → Lease
spend_egress bytes l = record l { reserved_bytes = forget_bytes bytes l.reserved_bytes }

-- `reserveSnapshotEgress`: the bytes taken from the budget.
unfoldable pub reserve_snapshot_egress : Lease → Option ℕ → M ℕ
reserve_snapshot_egress l none st = (st, err (rpc_error "INVALID_BROWSER_RESPONSE"))
reserve_snapshot_egress l (some bytes) st =
    if ltb snapshot_max_result_bytes bytes
    then (st, err (rpc_error "SNAPSHOT_TOO_LARGE"))
    else if ltb l.remaining_egress_bytes bytes
    then (st, err (rpc_error "EGRESS_BUDGET_EXCEEDED"))
    else (set_lease l.lease_id (take_egress bytes) st, ok bytes)

-- The lease object of a running command.
unfoldable pub held_lease : String → BrokerState → Option Lease
held_lease lease_id st = elim (find (lease_has lease_id) st.leases) [
  | some l ↦ some l
  | none ↦ find (lease_has lease_id) st.detached
]

abbrev pub end_flight : Lease → Lease
end_flight l = record l { in_flight = l.in_flight - 1 }

-- The `finally` block: one command fewer in flight, and the end of an exhausted lease.
unfoldable pub settle_command : ℕ → String → BrokerState → BrokerState
settle_command now lease_id st =
    let landed = record st {
      leases = update (lease_has lease_id) end_flight st.leases;
      detached = update (lease_has lease_id) end_flight st.detached;
    } in
    elim (find (lease_has lease_id) landed.leases) [
      | none ↦ landed
      | some l ↦
          if l.policy_lease.remaining_uses == 0 && l.in_flight == 0
          then revoke_lease now "USE_LIMIT_EXHAUSTED" l landed
          else landed
    ]

-- The bytes that a snapshot takes from the budget; other commands take none.
unfoldable pub charge : Lease → Command → Option ℕ → M ℕ
unfolding reserve_snapshot_egress
charge l command size = if is_snapshot command then reserve_snapshot_egress l size else return 0

-- The `try` block from the browser's answer to the record of success. The lease is read again: it may have
-- ended meanwhile.
unfoldable pub deliver : ℕ → Lease → Command → BrowserResult → M ℕ
unfolding is_lease_active charge
deliver now l command (failed e) st = (st, err e)
deliver now l command (returned size) st =
    let (st', active) = is_lease_active now l st in
    let current = or_else (find (lease_has l.lease_id) st'.leases) l in
    if not active
    then (st', err (rpc_error (or_else current.revoke_reason "LEASE_REVOKED")))
    else charge l command size st'

-- `executeWithLease` from the browser's answer to its next await. A value is the reserved bytes, with which it
-- waits for the record of success (`record_command`); an error waits for that of failure (`fail_command`).
unfoldable pub answer_command : ℕ → String → Command → BrowserResult → M ℕ
unfolding held_lease deliver
answer_command now lease_id command result st = elim (held_lease lease_id st) [
  | none ↦ (st, err internal_failure)
  | some l ↦ deliver now l command result st
]

-- The lease object of a running command is changed, in the map or detached from it.
abbrev pub set_held : String → (Lease → Lease) → BrokerState → BrokerState
set_held lease_id f st = record st {
  leases = update (lease_has lease_id) f st.leases;
  detached = update (lease_has lease_id) f st.detached;
}

-- From the record of success, written or not: the result is returned without another look at the lease, or
-- the bytes go back and the record of failure is awaited.
unfoldable pub record_command : ℕ → Bool → String → Command → ℕ → M (Unit {0})
unfolding held_lease settle_command
record_command now audit_ok lease_id command bytes st = elim (held_lease lease_id st) [
  | none ↦ (st, err internal_failure)
  | some l ↦
      let event = audit_command command (audit_event "browser.command" allowed) l in
      if audit_ok
      then (
        settle_command now lease_id
            (set_held lease_id (spend_egress bytes) (record st { audited = event ∷ st.audited })),
        ok tt,
      )
      else (set_held lease_id (give_egress bytes) st, err internal_failure)
]

-- From the record of failure on: the error, or that of the record.
unfoldable pub fail_command : ℕ → Bool → String → Command → BrokerError → M (Unit {0})
unfolding held_lease settle_command
fail_command now audit_ok lease_id command e st = elim (held_lease lease_id st) [
  | none ↦ (st, err internal_failure)
  | some l ↦
      let (st', outcome) = audit_and_rethrow audit_ok command l (st, err e) in
      (settle_command now lease_id st', outcome)
]
