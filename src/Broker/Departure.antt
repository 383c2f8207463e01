-- ===== src/Broker/Departure.antt =====
-- `disconnected` of apps/broker/src/broker-state.ts: what the end of a connection does to the leases that depended on
-- it, whether the connection was an agent's or a browser's.
use tabgrant.Common.{
  ℕ, ◌≡◌, refl, sym, ap, ◌∙◌, String, Bool, true, false, List, [], ◌∷◌, Option, none, some, inl,
  inr, find, find-update_self, find-update_other, update, Bool-cases, Option-cases, ◌===◌, ===_iff,
  ===_refl, subst,
}
use tabgrant.Broker.Records.{
  Lease, ConnectionContext, ContextEntry, AuditEvent, BrokerState, lease_has, entry_has, audit,
  then_do, ok, modify,
}
use tabgrant.Broker.Lifecycle.{
  mark_revoked, revoke_lease, end_leases, of_browser, of_session, session_of, browser_of,
  browser_disconnected, agent_disconnected, disconnected,
}
use tabgrant.Broker.Endings.{Ended, Ended-of_same, notify_revoked-leases, is_lease_active-revoked}
use tabgrant.Broker.Revocation.{Ended-by_id}

-- A revocation of a lease with another identifier.
revoke_lease-other :
    (now : ℕ) (reason id : String) (l : Lease) (s : BrokerState)
    → (l.lease_id === id) ≡ false
    → find (lease_has id) (revoke_lease now reason l s).leases ≡ find (lease_has id) s.leases
unfolding revoke_lease
revoke_lease-other now reason id l s other = elim (Option-cases l.revoked_at) [
  | inr (at, done) ↦ rw (revoke_lease, done) refl
  | inl live ↦
      rw (revoke_lease, live, notify_revoked-leases)
        (find-update_other (lease_has id) (mark_revoked now reason) (lease_has l.lease_id)
          (λ a. refl) (λ a own. let same = (===_iff a.lease_id l.lease_id).0 own in rw same other)
          s.leases)
]

revoke_lease-keeps :
    (now : ℕ) (reason id : String) (l : Lease) (s : BrokerState) (later : ℕ)
    → Ended id s later
    → Ended id (revoke_lease now reason l s) later
unfolding revoke_lease
revoke_lease-keeps now reason id l s later h = elim (Option-cases l.revoked_at) [
  | inr (at, done) ↦ rw (revoke_lease, done) h
  | inl live ↦ elim (Bool-cases (l.lease_id === id)) [
    | inr other ↦ record {
      lease = h.lease;
      held = revoke_lease-other now reason id l s other ∙ h.held;
      ended_at = h.ended_at;
      over = h.over;
      inactive = is_lease_active-revoked later h.ended_at h.lease _ h.over;
    }
    | inl own ↦
        let same = (===_iff l.lease_id id).0 own in
        rw (revoke_lease, live)
          (record {
            lease = mark_revoked now reason h.lease;
            held = rw (notify_revoked-leases) (
                subst
                  (λ i.
                    find (lease_has id) (update (lease_has i) (mark_revoked now reason) s.leases)
                    ≡ some (mark_revoked now reason h.lease))
                  (sym same)
                  (find-update_self (lease_has id) (mark_revoked now reason) (λ a. refl) s.leases
                    h.lease h.held));
            ended_at = now;
            over = refl;
            inactive = is_lease_active-revoked later now (mark_revoked now reason h.lease) _ refl;
          })
  ]
]

end_leases-keeps :
    (now : ℕ) (why : Lease → Option String) (id : String) (ls : List Lease) (s : BrokerState)
    (later : ℕ)
    → Ended id s later
    → Ended id (end_leases now why ls s) later
unfolding end_leases
end_leases-keeps now why id [] s later h = h
end_leases-keeps now why id (l ∷ ls) s later h = elim (Option-cases (why l)) [
  | inl none' ↦ rw (end_leases, none') (end_leases-keeps now why id ls s later h)
  | inr (reason, due) ↦
      rw (end_leases, due)
        (end_leases-keeps now why id ls _ later (revoke_lease-keeps now reason id l s later h))
]

-- The loop reaches the lease that the map holds, and no lease of another identifier touches it before.
end_leases-Ended :
    (now : ℕ) (why : Lease → Option String) (id reason : String) (m : Lease) (ls : List Lease)
    (s : BrokerState) (later : ℕ)
    → why m ≡ some reason
    → find (lease_has id) ls ≡ some m
    → find (lease_has id) s.leases ≡ some m
    → Ended id (end_leases now why ls s) later
unfolding end_leases
end_leases-Ended now why id reason m [] s later due there held = absurd (cc)
end_leases-Ended now why id reason m (l ∷ ls) s later due there held =
    elim (Bool-cases (lease_has id l)) [
      | inl hit ↦
          let is : l ≡ m = cc (rw hit at there) in
          let due' : why l ≡ some reason = ap why is ∙ due in
          rw (end_leases, due')
            (end_leases-keeps now why id ls _ later
              (Ended-by_id now reason id l s later (held ∙ ap some (sym is))))
      | inr miss ↦
          let there' = rw miss at there in
          elim (Option-cases (why l)) [
            | inl none' ↦
                rw (end_leases, none')
                  (end_leases-Ended now why id reason m ls s later due there' held)
            | inr (other, due') ↦
                rw (end_leases, due')
                  (end_leases-Ended now why id reason m ls _ later due there'
                    (revoke_lease-other now other id l s miss ∙ held))
          ]
    ]

-- A lease depends on a connection: on its browser, where it has registered one, else on its session.
pub data Depends (l : Lease) (entry : ContextEntry) : Type 0 where
  on_browser : entry.browser_instance_id ≡ some l.browser_instance_id → Depends l entry
  on_session : entry.browser_instance_id ≡ none → l.session_id ≡ entry.session_id → Depends l entry

audit-leases :
    (audit_ok : Bool) (e : AuditEvent) (s : BrokerState) → (audit audit_ok e s).0.leases ≡ s.leases
unfolding audit
audit-leases true e s = refl
audit-leases false e s = refl

-- When a registered connection ends, a lease that the map holds and that depends on it is inactive in the state
-- after it, at any clock, whether or not the audit record of the end is written.
pub disconnected-Ended :
    (now : ℕ) (audit_ok : Bool) (context : ConnectionContext) (entry : ContextEntry) (id : String)
    (l : Lease) (s : BrokerState) (later : ℕ)
    → find (entry_has context.connection) s.contexts ≡ some entry
    → find (lease_has id) s.leases ≡ some l
    → Depends l entry
    → Ended id (disconnected now audit_ok context s).0 later
unfolding disconnected browser_disconnected agent_disconnected session_of browser_of then_do
disconnected-Ended now audit_ok context entry id l s later known held (on_browser own) =
    let gone = browser_disconnected now l.browser_instance_id s in
    rw (disconnected, browser_of, known, own)
      (Ended-of_same id gone _ later (audit-leases audit_ok _ gone) (
        end_leases-Ended now (of_browser l.browser_instance_id) id "BROWSER_DISCONNECTED" l s.leases
          _ later (rw (===_refl l.browser_instance_id) refl) held held))
disconnected-Ended now audit_ok context entry id l s later known held (on_session bare own) =
    let gone = agent_disconnected now entry.session_id s in
    let named : session_of context s ≡ (s, ok entry.session_id) = rw (session_of, known) refl in
    let end : (disconnected now audit_ok context s).0 ≡ gone =
      rw (disconnected, browser_of, known, bare)
        (ap (λ r. (then_do r (λ session. modify (agent_disconnected now session))).0) named) in
    subst (λ t. Ended id t later) (sym end)
      (end_leases-Ended now (of_session entry.session_id) id "AGENT_DISCONNECTED" l s.leases _ later
        (rw (own, ===_refl entry.session_id) refl) held held)
