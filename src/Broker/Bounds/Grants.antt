-- ===== src/Broker/Bounds/Grants.antt =====
-- Registering a browser, granting and revoking in apps/broker/src/broker-state.ts keep the limits.
use tabgrant.Common.{
  ℕ, ◌<◌, ◌≡◌, refl, sym, String, Bool, false, List, [], ◌∷◌, some, inl, inr, length, find, update,
  discard, arith, Option-cases, Bool-cases, length-append, All-append, All-update, discard-none,
  ltb, leb,
}
use tabgrant.Protocol.Platform.{Platform}
use tabgrant.Protocol.Access.{Capability}
use tabgrant.Broker.Constants.{lease_record_limit, lease_use_limit}
use tabgrant.Broker.Records.{
  AccessRequest, is_pending, Lease, ConnectionContext, BrowserConnection, BrokerState, ok,
  request_has, lease_has, entry_has,
}
use tabgrant.Broker.Capability.{CapabilityGrant, issue}
use tabgrant.Broker.Grants.{
  RegisterParams, register_browser, GrantParams, GrantIds, evict_leases, ensure_lease_capacity,
  capability_grant, new_lease, public_lease, expire_pending, grant_request, pending_request,
  add_lease, grant_access, owned_lease, agent_revoke, browser_revoke,
}
use tabgrant.Broker.Bounds.Tame.{
  LeaseWithin, EntryWithin, IsBounded, Tame, Tame-refl, Tame-trans, Tame-IsBounded,
}
use tabgrant.Broker.Bounds.Monad.{
  TameTo, TameTo-of, BoundedTo, bind-TameTo, bind-BoundedTo, TameTo-BoundedTo, return-TameTo,
  throw_if-TameTo, require-TameTo, require_lem, session_of-TameTo, audit-TameTo,
}
use tabgrant.Broker.Bounds.Endings.{
  Tame-update, Tame-discard, is_lease_active-Tame, revoke_lease-Tame,
}
use tabgrant.Broker.Bounds.Requests.{list_pending-TameTo}

-- Registration writes the context's browser and the table of browsers.
renamed-IsBounded :
    (st : BrokerState) (c : ℕ) (id : String) (bs : List BrowserConnection)
    → IsBounded st
    → IsBounded (record st {
      contexts = update (entry_has c) (λ e. record e { browser_instance_id = some id }) st.contexts;
      browsers = bs;
    })
renamed-IsBounded st c id bs b = record {
  requests = b.requests;
  leases = b.leases;
  pending = b.pending;
  own_pending = b.own_pending;
  shared_window = b.shared_window;
  own_windows = All-update EntryWithin (entry_has c) _ (λ e _ h. h) st.contexts b.own_windows;
  within = b.within;
}

pub register_browser-BoundedTo :
    (p : Platform) (now : ℕ) (context : ConnectionContext) (q : RegisterParams) (st : BrokerState)
    → IsBounded st
    → BoundedTo (register_browser p now context q st)
unfolding register_browser
register_browser-BoundedTo p now context q st b =
    bind-BoundedTo (TameTo-BoundedTo st _ (throw_if-TameTo _ _ st) b) λ _ s0 _ b0.
      bind-BoundedTo
        (record { bounded = renamed-IsBounded s0 context.connection q.browser_instance_id _ b0 })
        λ _ s1 _ b1. TameTo-BoundedTo s1 _ (list_pending-TameTo now s1) b1

evict_leases-Tame : (ls : List Lease) (st : BrokerState) → Tame st (evict_leases ls st).0
unfolding evict_leases
evict_leases-Tame [] st = Tame-refl st
evict_leases-Tame (l ∷ rest) st =
    let smaller = record st {
      leases = discard (lease_has l.lease_id) st.leases;
      detached = l ∷ st.detached;
    } in
    let first =
      Tame-discard (λ _. false) (lease_has l.lease_id) st smaller
        (sym (discard-none st.access_requests)) refl refl refl in
    elim (Bool-cases (ltb (length smaller.leases) lease_record_limit)) [
      | inl room ↦ rw room first
      | inr full ↦ rw full (Tame-trans st smaller _ first (evict_leases-Tame rest smaller))
    ]

evict_leases-room :
    (ls : List Lease) (st t : BrokerState) (u : Unit {0})
    → evict_leases ls st ≡ (t, ok u)
    → length t.leases < lease_record_limit
unfolding evict_leases
evict_leases-room [] st t u e = absurd (cc)
evict_leases-room (l ∷ rest) st t u e = ground (
  arith,
  evict_leases-room rest
      (record st { leases = discard (lease_has l.lease_id) st.leases; detached = l ∷ st.detached })
      t u,
)

ensure_lease_capacity-Tame : (st : BrokerState) → Tame st (ensure_lease_capacity st).0
unfolding ensure_lease_capacity
ensure_lease_capacity-Tame st = elim (Bool-cases (ltb (length st.leases) lease_record_limit)) [
  | inl room ↦ rw (room, ensure_lease_capacity) (Tame-refl st)
  | inr full ↦ rw (full, ensure_lease_capacity) (evict_leases-Tame _ st)
]

ensure_lease_capacity-room :
    (st t : BrokerState) (u : Unit {0})
    → ensure_lease_capacity st ≡ (t, ok u)
    → length t.leases < lease_record_limit
unfolding ensure_lease_capacity
ensure_lease_capacity-room st t u e =
    elim (Bool-cases (ltb (length st.leases) lease_record_limit)) [
      | inl room ↦ ground arith
      | inr full ↦ evict_leases-room _ st t u (rw (full, ensure_lease_capacity) at e)
    ]

pub pending_request-TameTo :
    (now : ℕ) (id : String) (st : BrokerState) → TameTo st (pending_request now id st)
unfolding pending_request
pending_request-TameTo now id st = elim (Option-cases (find (request_has id) st.access_requests)) [
  | inl gone ↦ rw (gone, pending_request) (TameTo-of (Tame-refl st))
  | inr (r, there) ↦ elim (Bool-cases (is_pending r.status)) [
    | inr over ↦ rw (there, pending_request, over) (TameTo-of (Tame-refl st))
    | inl still ↦ elim (Bool-cases (leb r.expires_at now)) [
      | inr fresh ↦ rw (there, pending_request, still, fresh) (TameTo-of (Tame-refl st))
      | inl late ↦
          rw (there, pending_request, still, late)
            (TameTo-of (
              Tame-update (expire_pending now) (λ x e. absurd (cc)) (λ x. refl) (request_has id) st
                _ refl refl refl refl))
    ]
  ]
]

pub public_lease-TameTo :
    (p : Platform) (now : ℕ) (l : Lease) (st : BrokerState) → TameTo st (public_lease p now l st)
unfolding public_lease
public_lease-TameTo p now l st = TameTo-of (is_lease_active-Tame now l st)

issue-use_limit :
    (p : Platform) (secret : String) (g : CapabilityGrant) (id nonce : String) (c : Capability)
    → issue p secret g id nonce ≡ some c
    → c.use_limit ≡ g.use_limit
unfolding issue
issue-use_limit p secret g id nonce c e = ground arith

new_lease-LeaseWithin :
    (p : Platform) (now : ℕ) (r : AccessRequest) (q : GrantParams) (c : Capability) (ids : GrantIds)
    → c.use_limit ≡ lease_use_limit
    → LeaseWithin (new_lease p now r q c ids)
unfolding new_lease
new_lease-LeaseWithin p now r q c ids e = ground arith

add_lease-IsBounded :
    (now : ℕ) (id : String) (l : Lease) (st : BrokerState)
    → LeaseWithin l
    → length st.leases < lease_record_limit
    → IsBounded st
    → IsBounded (add_lease now id l st)
unfolding add_lease
add_lease-IsBounded now id l st h room b =
    let closed = record st {
      access_requests = update (request_has id) (grant_request now l.lease_id) st.access_requests;
    } in
    let b' =
      Tame-IsBounded st closed
        (Tame-update (grant_request now l.lease_id) (λ x e. absurd (cc)) (λ x. refl)
          (request_has id) st closed refl refl refl refl)
        b in
    record {
      requests = b'.requests;
      leases = omega (arith, length-append st.leases (l ∷ []));
      pending = b'.pending;
      own_pending = b'.own_pending;
      shared_window = b'.shared_window;
      own_windows = b'.own_windows;
      within = All-append LeaseWithin st.leases (l ∷ []) b'.within (h, tt);
    }

pub grant_access-BoundedTo :
    (p : Platform) (secret : String) (now : ℕ) (ids : GrantIds) (audit_ok : Bool)
    (context : ConnectionContext) (q : GrantParams) (st : BrokerState)
    → IsBounded st
    → BoundedTo (grant_access p secret now ids audit_ok context q st)
unfolding grant_access capability_grant
grant_access-BoundedTo p secret now ids audit_ok context q st b =
    bind-BoundedTo (TameTo-BoundedTo st _ (throw_if-TameTo _ _ st) b) λ _ s0 _ b0.
      bind-BoundedTo (record { bounded = b0 })
        λ seen s1 _ b1.
          bind-BoundedTo (TameTo-BoundedTo s1 _ (throw_if-TameTo _ _ s1) b1) λ _ s2 _ b2.
            bind-BoundedTo (TameTo-BoundedTo s2 _ (pending_request-TameTo now _ s2) b2) λ r s3 _ b3.
              bind-BoundedTo (TameTo-BoundedTo s3 _ (throw_if-TameTo _ _ s3) b3) λ _ s4 _ b4.
                bind-BoundedTo (TameTo-BoundedTo s4 _ (throw_if-TameTo _ _ s4) b4) λ _ s5 _ b5.
                  bind-BoundedTo
                    (TameTo-BoundedTo s5 _ (TameTo-of (ensure_lease_capacity-Tame s5)) b5)
                    λ u6 s6 made b6.
                      bind-BoundedTo (TameTo-BoundedTo s6 _ (require-TameTo _ _ s6) b6)
                        λ c s7 issued b7.
                          let (signed, same) = require_lem _ _ s6 s7 c issued in
                          let l = new_lease p now r q c ids in
                          let fine : LeaseWithin l =
                            new_lease-LeaseWithin p now r q c ids
                              (issue-use_limit p secret (capability_grant now r q) _ _ c signed) in
                          bind-BoundedTo
                            (record {
                              bounded =
                                  add_lease-IsBounded now q.request_id l s7 fine
                                    (rw same (ensure_lease_capacity-room s5 s6 u6 made)) b7;
                            })
                            λ _ s8 _ b8.
                              TameTo-BoundedTo s8 _
                                (bind-TameTo (audit-TameTo audit_ok _ s8)
                                  (λ _ t. public_lease-TameTo p now l t))
                                b8

pub owned_lease-TameTo :
    (context : ConnectionContext) (id : String) (st : BrokerState)
    → TameTo st (owned_lease context id st)
unfolding owned_lease
owned_lease-TameTo context id st = bind-TameTo (TameTo-of (Tame-refl st)) λ seen s0.
    bind-TameTo (require-TameTo _ _ s0) λ l s1.
      bind-TameTo (session_of-TameTo context s1)
        λ session s2. bind-TameTo (throw_if-TameTo _ _ s2) λ _ s3. return-TameTo l s3

pub agent_revoke-TameTo :
    (p : Platform) (now : ℕ) (audit_ok : Bool) (context : ConnectionContext) (id : String)
    (st : BrokerState)
    → TameTo st (agent_revoke p now audit_ok context id st)
unfolding agent_revoke
agent_revoke-TameTo p now audit_ok context id st = bind-TameTo (throw_if-TameTo _ _ st) λ _ s0.
    bind-TameTo (owned_lease-TameTo context id s0) λ l s1.
      bind-TameTo (TameTo-of (revoke_lease-Tame now "AGENT_REVOKED" l s1))
        λ _ s2. bind-TameTo (audit-TameTo audit_ok _ s2) λ _ s3. return-TameTo id s3

pub browser_revoke-TameTo :
    (p : Platform) (now : ℕ) (audit_ok : Bool) (context : ConnectionContext) (id reason : String)
    (st : BrokerState)
    → TameTo st (browser_revoke p now audit_ok context id reason st)
unfolding browser_revoke
browser_revoke-TameTo p now audit_ok context id reason st =
    bind-TameTo (throw_if-TameTo _ _ st) λ _ s0. bind-TameTo (TameTo-of (Tame-refl s0)) λ seen s1.
      bind-TameTo (require-TameTo _ _ s1) λ l s2. bind-TameTo (throw_if-TameTo _ _ s2) λ _ s3.
        bind-TameTo (TameTo-of (revoke_lease-Tame now reason l s3))
          λ _ s4. bind-TameTo (audit-TameTo audit_ok _ s4) λ _ s5. return-TameTo l.lease_id s5
