-- ===== src/Broker/Bounds/Endings.antt =====
-- Ending records is tame: `revokeLease`, `isLeaseActive`, `expireRecords`, `maintainState` and
-- `disconnected` of apps/broker/src/broker-state.ts.
use tabgrant.Common.{
  ℕ, ◌≡◌, refl, String, Bool, true, List, [], ◌∷◌, Option, inl, inr, map, find, update, discard,
  arith, Option-cases, Bool-cases, length-update, length-map, length-discard, count_if-update,
  count_if-map, count_if-discard, All-update, All-discard, ltb,
}
use tabgrant.Broker.Records.{
  AccessRequest, is_pending, Lease, ConnectionContext, BrokerState, request_has, lease_has,
  browser_has,
}
use tabgrant.Broker.Lifecycle.{
  mark_revoked, close_request, expire_request, end_session_request, revoke_lease, end_leases,
  expiry_reason, is_lease_active, expire_records, maintain_state, request_retired, lease_retired,
  disconnected, browser_disconnected, agent_disconnected, of_browser, of_session, browser_of,
}
use tabgrant.Broker.Requests.{counts_globally, counts_for, global_pending, session_pending}
use tabgrant.Broker.Bounds.Monad.{TameTo, TameTo-of, bind-TameTo, session_of-TameTo, audit-TameTo}
use tabgrant.Broker.Bounds.Tame.{LeaseWithin, Tame, Tame-refl, Tame-trans, Tame-of_same}

mark_revoked-LeaseWithin :
    (now : ℕ) (reason : String) (l : Lease)
    → LeaseWithin l
    → LeaseWithin (mark_revoked now reason l)
mark_revoked-LeaseWithin now reason l h = ground arith

-- A change of requests that makes none pending and moves none to another session.
module _ (f : AccessRequest → AccessRequest)
    (calm : (r : AccessRequest) → is_pending (f r).status ≡ true → is_pending r.status ≡ true)
    (stays : (r : AccessRequest) → (f r).session_id ≡ r.session_id) where
  own_calm :
      (session : String) (r : AccessRequest)
      → counts_for session (f r) ≡ true
      → counts_for session r ≡ true
  own_calm session r e =
      let same = stays r in
      let before = calm r in
      elim (Bool-cases (is_pending (f r).status)) [
        | inl p ↦ rw (before p) (rw (← same) (rw p at e))
        | inr n ↦ absurd (cc (rw n at e))
      ]

  pub Tame-update :
      (p : AccessRequest → Bool) (st t : BrokerState)
      → t.access_requests ≡ update p f st.access_requests
      → t.leases ≡ st.leases
      → t.global_request_window ≡ st.global_request_window
      → t.contexts ≡ st.contexts
      → Tame st t
  unfolding global_pending session_pending
  Tame-update p st t r l g c = record {
    requests = rw r (omega (arith, length-update p f st.access_requests));
    leases = rw l (omega arith);
    pending = rw r (count_if-update counts_globally f calm p st.access_requests);
    own_pending = λ x. rw r (count_if-update (counts_for x) f (own_calm x) p st.access_requests);
    shared_window = g;
    own_windows = c;
    within = λ h. rw l h;
  }

  pub Tame-map :
      (st t : BrokerState)
      → t.access_requests ≡ map f st.access_requests
      → t.leases ≡ st.leases
      → t.global_request_window ≡ st.global_request_window
      → t.contexts ≡ st.contexts
      → Tame st t
  unfolding global_pending session_pending
  Tame-map st t r l g c = record {
    requests = rw r (omega (arith, length-map f st.access_requests));
    leases = rw l (omega arith);
    pending = rw r (count_if-map counts_globally f calm st.access_requests);
    own_pending = λ x. rw r (count_if-map (counts_for x) f (own_calm x) st.access_requests);
    shared_window = g;
    own_windows = c;
    within = λ h. rw l h;
  }

-- A change of leases that keeps the counters of each in range.
pub Tame-update_leases :
    (p : Lease → Bool) (f : Lease → Lease)
    → ((l : Lease) → LeaseWithin l → LeaseWithin (f l))
    → (st t : BrokerState) → t.access_requests ≡ st.access_requests
    → t.leases ≡ update p f st.leases
    → t.global_request_window ≡ st.global_request_window
    → t.contexts ≡ st.contexts
    → Tame st t
Tame-update_leases p f sound st t r l g c = record {
  requests = rw r (omega arith);
  leases = rw l (omega (arith, length-update p f st.leases));
  pending = rw r (omega arith);
  own_pending = λ x. rw r (omega arith);
  shared_window = g;
  own_windows = c;
  within = λ h. rw l (All-update LeaseWithin p f (λ a _. sound a) st.leases h);
}

close_request_calm :
    (now : ℕ) (reason : String) (r : AccessRequest)
    → is_pending (close_request now reason r).status ≡ true
    → is_pending r.status ≡ true
close_request_calm now reason r e = ground arith

pub revoke_lease-Tame :
    (now : ℕ) (reason : String) (l : Lease) (st : BrokerState)
    → Tame st (revoke_lease now reason l st)
unfolding revoke_lease
revoke_lease-Tame now reason l st = elim (Option-cases l.revoked_at) [
  | inr (at, done) ↦ rw (done, revoke_lease) (Tame-refl st)
  | inl live ↦
      let marked = record st {
        leases = update (lease_has l.lease_id) (mark_revoked now reason) st.leases;
      } in
      let closed = record marked {
        access_requests =
            update (request_has l.request_id) (close_request now reason) st.access_requests;
      } in
      let first =
        Tame-update_leases (lease_has l.lease_id) (mark_revoked now reason)
          (mark_revoked-LeaseWithin now reason) st marked refl refl refl refl in
      let second =
        Tame-update (close_request now reason) (close_request_calm now reason) (λ r. refl)
          (request_has l.request_id) marked closed refl refl refl refl in
      let both = Tame-trans st marked closed first second in
      elim (Option-cases (find (browser_has l.browser_instance_id) st.browsers)) [
        | inl gone ↦ rw (live, revoke_lease, gone) both
        | inr (b, there) ↦
            rw (live, revoke_lease, there)
              (Tame-trans st closed _ both (Tame-of_same closed _ refl refl refl refl))
      ]
]

pub end_leases-Tame :
    (now : ℕ) (reason_for : Lease → Option String) (ls : List Lease) (st : BrokerState)
    → Tame st (end_leases now reason_for ls st)
unfolding end_leases
end_leases-Tame now reason_for [] st = Tame-refl st
end_leases-Tame now reason_for (l ∷ ls) st = elim (Option-cases (reason_for l)) [
  | inl live ↦ rw (live, end_leases) (end_leases-Tame now reason_for ls st)
  | inr (reason, due) ↦
      rw (due, end_leases)
        (Tame-trans st (revoke_lease now reason l st) _ (revoke_lease-Tame now reason l st)
          (end_leases-Tame now reason_for ls (revoke_lease now reason l st)))
]

pub is_lease_active-Tame :
    (now : ℕ) (l : Lease) (st : BrokerState) → Tame st (is_lease_active now l st).0
unfolding is_lease_active
is_lease_active-Tame now l st = elim (Option-cases l.revoked_at) [
  | inr (at, done) ↦ rw (done, is_lease_active) (Tame-refl st)
  | inl live ↦ elim (Option-cases (expiry_reason now l)) [
    | inl fine ↦ rw (live, is_lease_active, fine) (Tame-refl st)
    | inr (reason, due) ↦ rw (live, is_lease_active, due) (revoke_lease-Tame now reason l st)
  ]
]

pub expire_records-Tame : (now : ℕ) (st : BrokerState) → Tame st (expire_records now st)
unfolding expire_records
expire_records-Tame now st =
    let swept = record st { access_requests = map (expire_request now) st.access_requests } in
    Tame-trans st swept _
      (Tame-map (expire_request now) (λ r e. ground arith) (λ r. ground arith) st swept refl refl
        refl refl)
      (end_leases-Tame now (expiry_reason now) st.leases swept)

-- Dropping records.
pub Tame-discard :
    (p : AccessRequest → Bool) (q : Lease → Bool) (st t : BrokerState)
    → t.access_requests ≡ discard p st.access_requests
    → t.leases ≡ discard q st.leases
    → t.global_request_window ≡ st.global_request_window
    → t.contexts ≡ st.contexts
    → Tame st t
unfolding global_pending session_pending
Tame-discard p q st t r l g c = record {
  requests = rw r (length-discard p st.access_requests);
  leases = rw l (length-discard q st.leases);
  pending = rw r (count_if-discard counts_globally p st.access_requests);
  own_pending = λ x. rw r (count_if-discard (counts_for x) p st.access_requests);
  shared_window = g;
  own_windows = c;
  within = λ h. rw l (All-discard LeaseWithin q st.leases h);
}

pub maintain_state-Tame : (now : ℕ) (st : BrokerState) → Tame st (maintain_state now st)
unfolding maintain_state
maintain_state-Tame now st =
    let swept = expire_records now st in
    elim (Bool-cases (ltb now swept.next_maintenance_at)) [
      | inl early ↦ rw (early, maintain_state) (expire_records-Tame now st)
      | inr due ↦
          rw (due, maintain_state)
            (Tame-trans st swept _ (expire_records-Tame now st)
              (Tame-discard (request_retired now) (lease_retired now) swept _ refl refl refl refl))
    ]

browser_disconnected-Tame :
    (now : ℕ) (id : String) (st : BrokerState) → Tame st (browser_disconnected now id st)
unfolding browser_disconnected
browser_disconnected-Tame now id st =
    let gone = record st { browsers = discard (browser_has id) st.browsers } in
    Tame-trans st gone _ (Tame-of_same st gone refl refl refl refl)
      (end_leases-Tame now (of_browser id) st.leases gone)

agent_disconnected-Tame :
    (now : ℕ) (session : String) (st : BrokerState) → Tame st (agent_disconnected now session st)
unfolding agent_disconnected
agent_disconnected-Tame now session st =
    let swept = record st {
      access_requests = map (end_session_request now session) st.access_requests;
    } in
    Tame-trans st swept _
      (Tame-map (end_session_request now session) (λ r e. ground arith) (λ r. ground arith) st swept
        refl refl refl refl)
      (end_leases-Tame now (of_session session) st.leases swept)

pub disconnected-TameTo :
    (now : ℕ) (audit_ok : Bool) (context : ConnectionContext) (st : BrokerState)
    → TameTo st (disconnected now audit_ok context st)
unfolding disconnected
disconnected-TameTo now audit_ok context st = elim (Option-cases (browser_of context st)) [
  | inr (id, known) ↦
      rw (known, disconnected)
        (TameTo-of (
          Tame-trans st (browser_disconnected now id st) _ (browser_disconnected-Tame now id st)
            (TameTo.tame (audit-TameTo audit_ok _ _))))
  | inl unknown ↦
      rw (unknown, disconnected)
        (bind-TameTo (session_of-TameTo context st)
          (λ session t. TameTo-of (agent_disconnected-Tame now session t)))
]
