-- ===== src/Broker/Revocation.antt =====
-- `agentRevoke` and `browserRevoke` of apps/broker/src/broker-state.ts end the lease that they name, and
-- only those who may call them reach it.
use tabgrant.Common.{ℕ, ◌≡◌, sym, ap, ◌∙◌, subst, String, Bool, some, find, find-passes, ===_iff}
use tabgrant.Protocol.Platform.{Platform}
use tabgrant.Broker.Records.{Lease, ConnectionContext, BrokerState, ok, lease_has}
use tabgrant.Broker.Lifecycle.{browser_of, revoke_lease}
use tabgrant.Broker.Grants.{agent_revoke, browser_revoke}
use tabgrant.Broker.Inversion.{then_do-ok, throw_if-then, pure-then, require-then, audit-then}
use tabgrant.Broker.Access.{IsOwned, owned_lease-IsOwned}
use tabgrant.Broker.Consent.{same_option-some}
use tabgrant.Broker.Endings.{Ended, Ended-of_same, revoke_lease-Ended}

-- The end of the lease that the map holds under an identifier.
pub Ended-by_id :
    (now : ℕ) (reason id : String) (l : Lease) (s : BrokerState) (later : ℕ)
    → find (lease_has id) s.leases ≡ some l
    → Ended id (revoke_lease now reason l s) later
Ended-by_id now reason id l s later there =
    let same : l.lease_id ≡ id =
      (===_iff l.lease_id id).0 (find-passes (lease_has id) s.leases l there) in
    subst (λ i. Ended i (revoke_lease now reason l s) later) same
      (revoke_lease-Ended now reason l s later (ap (λ i. find (lease_has i) s.leases) same ∙ there))

-- An agent's revocation that succeeds named a lease of the agent's own session, and in the state after it
-- the lease of that name is inactive at any time.
pub agent_revoke-Ended :
    (p : Platform) (now : ℕ) (audit_ok : Bool) (context : ConnectionContext) (id answer : String)
    (s t : BrokerState) (later : ℕ)
    → agent_revoke p now audit_ok context id s ≡ (t, ok answer)
    → ((l : Lease) × IsOwned context id s l) × Ended id t later
unfolding agent_revoke
agent_revoke-Ended p now audit_ok context id answer s t later h =
    let (_, h1) = throw_if-then _ _ _ h in
    let (l, s1, e1, h2) = then_do-ok h1 in
    let (same, owned) = owned_lease-IsOwned context id s e1 in
    let end = audit-then _ _ _ (pure-then _ _ h2) in
    let held = ap (λ x. find (lease_has id) (BrokerState.leases x)) same ∙ owned.held in
    (
      (l, owned),
      Ended-of_same id (revoke_lease now "AGENT_REVOKED" l s1) t later
          (sym (ap (λ r. BrokerState.leases r.0) end))
          (Ended-by_id now "AGENT_REVOKED" id l s1 later held),
    )

-- A browser's revocation that succeeds named a lease of the browser instance that its connection
-- registered, and in the state after it the lease of that name is inactive at any time.
pub browser_revoke-Ended :
    (p : Platform) (now : ℕ) (audit_ok : Bool) (context : ConnectionContext)
    (id reason answer : String) (s t : BrokerState) (later : ℕ)
    → browser_revoke p now audit_ok context id reason s ≡ (t, ok answer)
    → ((l : Lease) × (find (lease_has id) s.leases ≡ some l)
        × (browser_of context s ≡ some l.browser_instance_id))
      × Ended id t later
unfolding browser_revoke
browser_revoke-Ended p now audit_ok context id reason answer s t later h =
    let (_, h1) = throw_if-then _ _ _ h in
    let (l, there, h2) = require-then _ _ _ (pure-then _ _ h1) in
    let (own, h3) = throw_if-then _ _ _ h2 in
    let end = audit-then _ _ _ (pure-then _ _ h3) in
    (
      (l, there, same_option-some (browser_of context s) l.browser_instance_id own),
      Ended-of_same id (revoke_lease now reason l s) t later
          (sym (ap (λ r. BrokerState.leases r.0) end)) (Ended-by_id now reason id l s later there),
    )
