-- ===== src/Broker/Access.antt =====
-- Which lease a connection may use: what `requireOwnedLease` of apps/broker/src/broker-state.ts returns.
use tabgrant.Common.{
  ℕ, ◌+◌, ◌<◌, ◌≡◌, ◌⊎◌, ◌∙◌, ap, String, true, none, some, inl, inr, find, arith, Bool-cases,
  ===_iff,
}
use tabgrant.Broker.Constants.{lease_idle_timeout_ms}
use tabgrant.Broker.Records.{
  Lease, ConnectionContext, ContextEntry, BrokerState, ok, lease_has, entry_has,
}
use tabgrant.Broker.Lifecycle.{expiry_reason, is_lease_active}
use tabgrant.Broker.Inversion.{then_do-ok, pure-then, throw_if-then, require-then, session_of-ok}
use tabgrant.Broker.Grants.{owned_lease}
use tabgrant.Broker.Commands.{active_lease}

-- A lease that is not ended and not due to end.
pub record IsLive (now : ℕ) (l : Lease) : Type 0 where
  pub unrevoked : l.revoked_at ≡ none
  pub unexpired : now < l.expires_at
  pub busy : now < l.last_used_at + lease_idle_timeout_ms
  pub usable : (0 < l.policy_lease.remaining_uses) ⊎ (0 < l.in_flight)

-- The lease that the map holds under the identifier, of the connection's own session.
pub record IsOwned (context : ConnectionContext) (id : String) (st : BrokerState) (l : Lease)
    : Type 0 where
  pub entry : ContextEntry
  pub registered : find (entry_has context.connection) st.contexts ≡ some entry
  pub held : find (lease_has id) st.leases ≡ some l
  pub same_session : l.session_id ≡ entry.session_id

pub owned_lease-IsOwned :
    (context : ConnectionContext) (id : String) (st : BrokerState) {t : BrokerState} {l : Lease}
    → owned_lease context id st ≡ (t, ok l)
    → (t ≡ st) × IsOwned context id st l
unfolding owned_lease
owned_lease-IsOwned context id st {l} e =
    let (x, there, k0) = require-then _ _ _ (pure-then _ _ e) in
    let (session, s, e1, k1) = then_do-ok k0 in
    let (same, (entry, known, named)) = session_of-ok context st s session e1 in
    let (mine, k2) = throw_if-then _ _ _ k1 in
    let is : x ≡ l = cc in
    (
      cc,
      record {
        entry = entry;
        registered = known;
        held = there ∙ ap some is;
        same_session = rw (← is) (ground (arith, ===_iff x.session_id session));
      },
    )

pub is_lease_active-true :
    (now : ℕ) (l : Lease) (st : BrokerState)
    → (is_lease_active now l st).1 ≡ true
    → ((is_lease_active now l st).0 ≡ st) × IsLive now l
unfolding is_lease_active expiry_reason
is_lease_active-true now l st e = ground arith

-- `requireOwnedLease` returns a lease only if it is the connection's own and live, and then it has
-- changed nothing.
pub active_lease-IsOwned :
    (now : ℕ) (context : ConnectionContext) (id : String) (st : BrokerState) {t : BrokerState}
    {l : Lease}
    → active_lease now context id st ≡ (t, ok l)
    → (t ≡ st) × IsOwned context id st l × IsLive now l
unfolding active_lease
active_lease-IsOwned now context id st {l} e =
    let (x, s, e0, k) = then_do-ok e in
    let (same, owned) = owned_lease-IsOwned context id st e0 in
    elim (Bool-cases (is_lease_active now x s).1) [
      | inr over ↦ absurd (cc (rw over at k))
      | inl live ↦
          let (still, lively) = is_lease_active-true now x s live in
          let k' = rw live at k in let is : x ≡ l = cc in (cc, rw is at owned, rw is at lively)
    ]
