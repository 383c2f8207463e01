-- ===== src/Broker/Bounds/Run.antt =====
-- In every history of apps/broker/src/broker-state.ts the counters and the numbers of records stay within the
-- limits of constants.ts.
use tabgrant.Common.{ℕ, String, Bool, none, some, List, [], ◌∷◌, arith, ◌===◌, Bool-cases, inl, inr}
use tabgrant.Protocol.Platform.{Platform}
use tabgrant.Broker.Records.{
  BrokerState, initial_state, ConnectionContext, Role, agent, browser, Lease, ok, Result, then_do,
}
use tabgrant.Broker.Lifecycle.{create_context, is_lease_active, maintain_state}
use tabgrant.Broker.Requests.{global_pending, session_pending}
use tabgrant.Broker.Dispatch.{
  Call, broker_status, access_status, tabs_list, pending_list, request, revoke, command, register,
  grant, deny, misshaped, unsupported, Inputs, handle, handle_agent, handle_browser,
  access_status_of, list_granted_tabs, status_of, refuse_agent, public_leases, active_leases,
  by_role,
}
use tabgrant.Broker.Run.{
  Step, connects, calls, answers, records, fails, disconnects, Reachable, started, steps,
}
use tabgrant.Broker.Bounds.Tame.{IsBounded, Tame-refl, Tame-trans, Tame-IsBounded}
use tabgrant.Broker.Bounds.Monad.{
  TameTo, TameTo-of, BoundedTo, bind-TameTo, bind-BoundedTo, TameTo-BoundedTo, return-TameTo,
  session_of-TameTo, audit-TameTo,
}
use tabgrant.Broker.Bounds.Endings.{
  expire_records-Tame, is_lease_active-Tame, maintain_state-Tame, disconnected-TameTo,
}
use tabgrant.Broker.Bounds.Requests.{
  request_access-BoundedTo, list_pending-TameTo, browser_deny-TameTo,
}
use tabgrant.Broker.Bounds.Grants.{
  register_browser-BoundedTo, grant_access-BoundedTo, public_lease-TameTo, agent_revoke-TameTo,
  browser_revoke-TameTo,
}
use tabgrant.Broker.Bounds.Commands.{begin_command-BoundedTo}
use tabgrant.Broker.Bounds.Finish.{
  answer_command-BoundedTo, record_command-TameTo, fail_command-TameTo,
}

public_leases-TameTo :
    (p : Platform) (now : ℕ) (ls : List Lease) (st : BrokerState)
    → TameTo st (public_leases p now ls st)
public_leases-TameTo p now [] st = TameTo-of (Tame-refl st)
public_leases-TameTo p now (l ∷ ls) st =
    bind-TameTo (public_lease-TameTo p now l st)
      λ v s0. bind-TameTo (public_leases-TameTo p now ls s0) λ vs s1. return-TameTo _ s1

active_leases-TameTo :
    (now : ℕ) (session : String) (ls : List Lease) (st : BrokerState)
    → TameTo st (active_leases now session ls st)
active_leases-TameTo now session [] st = TameTo-of (Tame-refl st)
active_leases-TameTo now session (l ∷ ls) st = elim (Bool-cases (l.session_id === session)) [
  | inr other ↦ rw other (active_leases-TameTo now session ls st)
  | inl own ↦ rw own (
      bind-TameTo
        (TameTo-of (
          Tame-trans st (is_lease_active now l st).0 _ (is_lease_active-Tame now l st)
            (TameTo.tame (active_leases-TameTo now session ls (is_lease_active now l st).0))))
        λ more s1. TameTo-of (Tame-refl s1))
]

access_status-TameTo :
    (p : Platform) (now : ℕ) (context : ConnectionContext) (st : BrokerState)
    → TameTo st (access_status_of p now context st)
unfolding access_status_of
access_status-TameTo p now context st = bind-TameTo (TameTo-of (expire_records-Tame now st)) λ _ s0.
    bind-TameTo (session_of-TameTo context s0) λ session s1.
      bind-TameTo (TameTo-of (Tame-refl s1))
        λ _ s2. bind-TameTo (public_leases-TameTo p now _ s2) λ _ s3. return-TameTo _ s3

list_granted_tabs-TameTo :
    (now : ℕ) (context : ConnectionContext) (st : BrokerState)
    → TameTo st (list_granted_tabs now context st)
unfolding list_granted_tabs
list_granted_tabs-TameTo now context st =
    bind-TameTo (TameTo-of (expire_records-Tame now st)) λ _ s0.
      bind-TameTo (session_of-TameTo context s0) λ session s1.
        bind-TameTo (TameTo-of (Tame-refl s1))
          λ _ s2. bind-TameTo (active_leases-TameTo now session _ s2) λ _ s3. return-TameTo _ s3

refuse_agent-TameTo :
    (audit_ok : Bool) (context : ConnectionContext) (method : String) (st : BrokerState)
    → TameTo st (refuse_agent audit_ok context method st)
unfolding refuse_agent
refuse_agent-TameTo audit_ok context method st =
    bind-TameTo (audit-TameTo audit_ok _ st) λ _ s0. TameTo-of (Tame-refl s0)

then_return :
    {A B : Type 0} {r : BrokerState × Result A} (g : A → B)
    → BoundedTo r
    → BoundedTo (then_do r (λ a t. (t, ok (g a))))
then_return g h = bind-BoundedTo h λ _ _ _ b. record { bounded = b }

module _ (p : Platform) (secret : String) (i : Inputs) (context : ConnectionContext) where
  handle_agent-BoundedTo :
      (c : Call) (st : BrokerState)
      → IsBounded st
      → BoundedTo (handle_agent p secret i context c st)
  unfolding handle_agent status_of
  handle_agent-BoundedTo (request q) st b =
      then_return _ (request_access-BoundedTo i.now i.uuid i.audit_ok context q st b)
  handle_agent-BoundedTo access_status st b =
      TameTo-BoundedTo st _ (access_status-TameTo p i.now context st) b
  handle_agent-BoundedTo (revoke id none) st b =
      then_return _ (TameTo-BoundedTo st _ (agent_revoke-TameTo p i.now i.audit_ok context id st) b)
  handle_agent-BoundedTo (revoke id (some reason)) st b = record { bounded = b }
  handle_agent-BoundedTo tabs_list st b =
      TameTo-BoundedTo st _ (list_granted_tabs-TameTo i.now context st) b
  handle_agent-BoundedTo (command id c) st b =
      then_return _ (begin_command-BoundedTo p secret i.now i.audit_ok context id c st b)
  handle_agent-BoundedTo misshaped st b = record { bounded = b }
  handle_agent-BoundedTo (unsupported method) st b =
      TameTo-BoundedTo st _ (refuse_agent-TameTo i.audit_ok context _ st) b
  handle_agent-BoundedTo broker_status st b = record { bounded = b }
  handle_agent-BoundedTo pending_list st b =
      TameTo-BoundedTo st _ (refuse_agent-TameTo i.audit_ok context _ st) b
  handle_agent-BoundedTo (register q) st b =
      TameTo-BoundedTo st _ (refuse_agent-TameTo i.audit_ok context _ st) b
  handle_agent-BoundedTo (grant q) st b =
      TameTo-BoundedTo st _ (refuse_agent-TameTo i.audit_ok context _ st) b
  handle_agent-BoundedTo (deny id) st b =
      TameTo-BoundedTo st _ (refuse_agent-TameTo i.audit_ok context _ st) b

  handle_browser-BoundedTo :
      (c : Call) (st : BrokerState)
      → IsBounded st
      → BoundedTo (handle_browser p secret i context c st)
  unfolding handle_browser status_of
  handle_browser-BoundedTo (register q) st b =
      then_return _ (register_browser-BoundedTo p i.now context q st b)
  handle_browser-BoundedTo pending_list st b =
      then_return _ (TameTo-BoundedTo st _ (list_pending-TameTo i.now st) b)
  handle_browser-BoundedTo (grant q) st b =
      then_return _ (grant_access-BoundedTo p secret i.now i.grant_ids i.audit_ok context q st b)
  handle_browser-BoundedTo (deny id) st b =
      then_return _ (TameTo-BoundedTo st _ (browser_deny-TameTo p i.now i.audit_ok id st) b)
  handle_browser-BoundedTo (revoke id none) st b = record { bounded = b }
  handle_browser-BoundedTo (revoke id (some reason)) st b =
      then_return _
        (TameTo-BoundedTo st _ (browser_revoke-TameTo p i.now i.audit_ok context id reason st) b)
  handle_browser-BoundedTo misshaped st b = record { bounded = b }
  handle_browser-BoundedTo broker_status st b = record { bounded = b }
  handle_browser-BoundedTo (request q) st b = record { bounded = b }
  handle_browser-BoundedTo access_status st b = record { bounded = b }
  handle_browser-BoundedTo tabs_list st b = record { bounded = b }
  handle_browser-BoundedTo (command id c) st b = record { bounded = b }
  handle_browser-BoundedTo (unsupported method) st b = record { bounded = b }

  by_role-BoundedTo :
      (r : Role) (c : Call) (st : BrokerState)
      → IsBounded st
      → BoundedTo (by_role p secret i context r c st)
  by_role-BoundedTo agent c st b = handle_agent-BoundedTo c st b
  by_role-BoundedTo browser c st b = handle_browser-BoundedTo c st b

-- Every call, of either role and with any parameters and clock, keeps a bounded state bounded.
handle-IsBounded :
    (p : Platform) (secret : String) (i : Inputs) (context : ConnectionContext) (c : Call)
    (st : BrokerState)
    → IsBounded st
    → IsBounded (handle p secret i context c st).0
unfolding handle
handle-IsBounded p secret i context c st b =
    let m = maintain_state i.now st in
    let b' = Tame-IsBounded st m (maintain_state-Tame i.now st) b in
    BoundedTo.bounded (by_role-BoundedTo p secret i context context.role c m b')

create_context-IsBounded :
    (context : ConnectionContext) (uuid : String) (st : BrokerState)
    → IsBounded st
    → IsBounded (create_context context uuid st)
unfolding create_context
create_context-IsBounded context uuid st b = record {
  requests = b.requests;
  leases = b.leases;
  pending = b.pending;
  own_pending = b.own_pending;
  shared_window = b.shared_window;
  own_windows = (tt, b.own_windows);
  within = b.within;
}

initial_state-IsBounded : IsBounded initial_state
unfolding global_pending session_pending
initial_state-IsBounded = record {
  requests = omega arith;
  leases = omega arith;
  pending = omega arith;
  own_pending = λ x. omega arith;
  shared_window = omega arith;
  own_windows = tt;
  within = tt;
}

Step-IsBounded :
    (p : Platform) (secret : String) (s t : BrokerState)
    → Step p secret s t
    → IsBounded s
    → IsBounded t
Step-IsBounded p secret s t (connects context uuid st) b = create_context-IsBounded context uuid s b
Step-IsBounded p secret s t (calls i context c st) b = handle-IsBounded p secret i context c s b
Step-IsBounded p secret s t (answers now id c result st) b =
    BoundedTo.bounded (answer_command-BoundedTo now id c result s b)
Step-IsBounded p secret s t (records now audit_ok id c bytes st) b =
    Tame-IsBounded s _ (TameTo.tame (record_command-TameTo now audit_ok id c bytes s)) b
Step-IsBounded p secret s t (fails now audit_ok id c e st) b =
    Tame-IsBounded s _ (TameTo.tame (fail_command-TameTo now audit_ok id c e s)) b
Step-IsBounded p secret s t (disconnects now audit_ok context st) b =
    Tame-IsBounded s _ (TameTo.tame (disconnected-TameTo now audit_ok context s)) b

-- In every state that a broker can reach from its start, by any sequence of connections, calls, browser
-- answers, ends of commands and disconnections, with any results of the audit writes and any clock: there are
-- at most 512 access requests, 100 of them pending and 8 of them pending for one session, and at most 200
-- leases; the shared rate window counts at most 120 requests and a connection's at most 20; and of each lease
-- record the counters are within range: at most 2 in `in_flight`, 30 in `commands_in_window`, 250 in
-- `remaining_uses`, and 1000000 bytes in the egress budget that is left together with the bytes that commands hold
-- reserved; its expiry is at most 10 minutes after its issue, and its policy lease is
-- active exactly while it is not revoked.
pub Reachable-IsBounded :
    (p : Platform) (secret : String) (st : BrokerState) → Reachable p secret st → IsBounded st
Reachable-IsBounded p secret st started = initial_state-IsBounded
Reachable-IsBounded p secret st (steps s t r step) =
    Step-IsBounded p secret s st step (Reachable-IsBounded p secret s r)
