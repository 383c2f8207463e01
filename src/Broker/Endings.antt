-- ===== src/Broker/Endings.antt =====
-- How leases and requests end in apps/broker/src/broker-state.ts: in the state after `revokeLease` the lease is
-- inactive, and `expireRecords` leaves no request pending beyond its time.
use tabgrant.Common.{
  ap, ◌∙◌, ℕ, ◌<◌, ◌≡◌, ◌⊎◌, refl, String, false, List, [], ◌∷◌, Option, none, some, inl, inr, All,
  All-update, map, arith, find, find-update_self, Option-cases,
}
use tabgrant.Broker.Records.{
  AccessRequest, is_pending, Lease, BrokerState, BrowserConnection, lease_has, request_has,
}
use tabgrant.Broker.Lifecycle.{
  mark_revoked, close_request, notify_revoked, revoke_lease, expiry_reason, end_leases,
  is_lease_active, expire_request, expire_records,
}

pub notify_revoked-leases :
    (o : Option BrowserConnection) (id reason : String) (s : BrokerState)
    → (notify_revoked o id reason s).leases ≡ s.leases
notify_revoked-leases none id reason s = refl
notify_revoked-leases (some b) id reason s = refl

notify_revoked-requests :
    (o : Option BrowserConnection) (id reason : String) (s : BrokerState)
    → (notify_revoked o id reason s).access_requests ≡ s.access_requests
notify_revoked-requests none id reason s = refl
notify_revoked-requests (some b) id reason s = refl

-- The lease that the map holds after a revocation.
pub record Ended (id : String) (t : BrokerState) (later : ℕ) : Type 0 where
  pub lease : Lease
  pub held : find (lease_has id) t.leases ≡ some lease
  pub ended_at : ℕ
  pub over : lease.revoked_at ≡ some ended_at
  pub inactive : is_lease_active later lease t ≡ (t, false)

pub is_lease_active-revoked :
    (later at : ℕ) (l : Lease) (t : BrokerState)
    → l.revoked_at ≡ some at
    → is_lease_active later l t ≡ (t, false)
unfolding is_lease_active
is_lease_active-revoked later at l t over = rw (is_lease_active, over) refl

-- Another state with the same leases.
pub Ended-of_same :
    (id : String) (s t : BrokerState) (later : ℕ)
    → t.leases ≡ s.leases
    → Ended id s later
    → Ended id t later
Ended-of_same id s t later same e = record {
  lease = e.lease;
  held = ap (λ ls. find (lease_has id) ls) same ∙ e.held;
  ended_at = e.ended_at;
  over = e.over;
  inactive = is_lease_active-revoked later e.ended_at e.lease t e.over;
}

-- A lease of the map that `revokeLease` has been called on is inactive at any later or
-- earlier time, and asking for it changes nothing any more.
pub revoke_lease-Ended :
    (now : ℕ) (reason : String) (l : Lease) (s : BrokerState) (later : ℕ)
    → find (lease_has l.lease_id) s.leases ≡ some l
    → Ended l.lease_id (revoke_lease now reason l s) later
unfolding revoke_lease is_lease_active
revoke_lease-Ended now reason l s later there = elim (Option-cases l.revoked_at) [
  | inr (at, done) ↦
      rw (revoke_lease, done)
        (record {
          lease = l;
          held = there;
          ended_at = at;
          over = done;
          inactive = is_lease_active-revoked later at l s done;
        })
  | inl live ↦
      rw (revoke_lease, live)
        (record {
          lease = mark_revoked now reason l;
          held = rw (notify_revoked-leases) (
              find-update_self (lease_has l.lease_id) (mark_revoked now reason) (λ a. refl) s.leases
                l there);
          ended_at = now;
          over = refl;
          inactive = refl;
        })
]

-- A request is over, or its time has not come.
pub Timely : ℕ → AccessRequest → Type 0
Timely now r = (is_pending r.status ≡ false) ⊎ (now < r.expires_at)

expire_request-Timely : (now : ℕ) (r : AccessRequest) → Timely now (expire_request now r)
unfolding Timely
expire_request-Timely now r = ground arith

close_request-Timely :
    (now : ℕ) (reason : String) (r : AccessRequest) → Timely now (close_request now reason r)
unfolding Timely
close_request-Timely now reason r = ground arith

map-Timely : (now : ℕ) (rs : List AccessRequest) → All (Timely now) (map (expire_request now) rs)
map-Timely now [] = tt
map-Timely now (r ∷ rs) = (expire_request-Timely now r, map-Timely now rs)

revoke_lease-Timely :
    (now : ℕ) (reason : String) (l : Lease) (s : BrokerState)
    → All (Timely now) s.access_requests
    → All (Timely now) (revoke_lease now reason l s).access_requests
unfolding revoke_lease
revoke_lease-Timely now reason l s h = elim (Option-cases l.revoked_at) [
  | inr (at, done) ↦ rw (revoke_lease, done) h
  | inl live ↦
      rw (revoke_lease, live, notify_revoked-requests)
        (All-update (Timely now) (request_has l.request_id) (close_request now reason)
          (λ r _ _. close_request-Timely now reason r) s.access_requests h)
]

end_leases-Timely :
    (now : ℕ) (reason_for : Lease → Option String) (ls : List Lease) (s : BrokerState)
    → All (Timely now) s.access_requests
    → All (Timely now) (end_leases now reason_for ls s).access_requests
unfolding end_leases
end_leases-Timely now reason_for [] s h = h
end_leases-Timely now reason_for (l ∷ ls) s h = elim (Option-cases (reason_for l)) [
  | inl live ↦ rw (end_leases, live) (end_leases-Timely now reason_for ls s h)
  | inr (reason, due) ↦
      rw (end_leases, due)
        (end_leases-Timely now reason_for ls _ (revoke_lease-Timely now reason l s h))
]

-- After `expireRecords` every request is over, or its time is still to come.
pub expire_records-Timely :
    (now : ℕ) (s : BrokerState) → All (Timely now) (expire_records now s).access_requests
unfolding expire_records
expire_records-Timely now s =
    end_leases-Timely now (expiry_reason now) s.leases _ (map-Timely now s.access_requests)
