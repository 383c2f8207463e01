-- ===== src/Broker/Bounds/Requests.antt =====
-- The operations of apps/broker/src/broker-state.ts on requests keep the limits.
use tabgrant.Common.{
  ℕ, ◌≤◌, ◌<◌, ◌≡◌, refl, sym, String, Bool, false, List, [], ◌∷◌, some, inl, inr, length, All,
  find, update, discard, arith, Option-cases, Bool-cases, length-append, count_if-append,
  All-update, find-All, discard-none, ltb, leb, ◌===◌, ===_iff,
}
use tabgrant.Broker.Constants.{
  access_request_record_limit, access_pending_global_limit, access_pending_per_session_limit,
  access_requests_per_session_window, access_requests_global_window,
}
use tabgrant.Protocol.Platform.{Platform}
use tabgrant.Broker.Records.{
  AccessRequest, is_pending, FixedWindow, ConnectionContext, ContextEntry, BrokerState, ok,
  request_has, entry_has,
}
use tabgrant.Broker.Requests.{
  AccessParams, reset_window_if_needed, reserve_access_request_rate, global_pending,
  session_pending, counts_globally, counts_for, evict_requests, ensure_access_request_capacity,
  new_request, add_request, check_pending, request_access, list_pending_requests, deny_pending,
  deny_request, browser_deny, session_window, store_window, bump,
}
use tabgrant.Broker.Bounds.Tame.{WindowWithin, EntryWithin, IsBounded, Tame, Tame-refl, Tame-trans}
use tabgrant.Broker.Bounds.Monad.{
  TameTo, TameTo-of, BoundedTo, bind-TameTo, bind-BoundedTo, TameTo-BoundedTo, return-TameTo,
  throw_if-TameTo, session_of-TameTo, audit-TameTo,
}
use tabgrant.Broker.Bounds.Endings.{Tame-update, Tame-discard, expire_records-Tame}

reset-within :
    (now limit : ℕ) (w : FixedWindow)
    → w.count ≤ limit
    → (reset_window_if_needed now w).count ≤ limit
unfolding reset_window_if_needed
reset-within now limit w h = ground arith

session_window-within :
    (now : ℕ) (entries : List ContextEntry) (c : ℕ)
    → All EntryWithin entries
    → WindowWithin (some (session_window now entries c))
session_window-within now entries c h = elim (Option-cases (find (entry_has c) entries)) [
  | inl gone ↦ rw (gone, session_window) (omega arith)
  | inr (entry, there) ↦
      let fine = find-All EntryWithin (entry_has c) entries entry there h in
      elim (Option-cases entry.request_window) [
        | inl fresh ↦ rw (there, session_window, fresh) (omega arith)
        | inr (w, old) ↦ rw (there, session_window, old) (reset-within now _ w (rw old at fine))
      ]
]

store_window-within :
    (c : ℕ) (w : FixedWindow) (entries : List ContextEntry)
    → WindowWithin (some w)
    → All EntryWithin entries
    → All EntryWithin (store_window c w entries)
store_window-within c w entries h k = All-update EntryWithin (entry_has c) _ (λ e _ _. h) entries k

-- New windows within the limits, and nothing else changed.
rewindow-IsBounded :
    (st : BrokerState) (entries : List ContextEntry) (shared : FixedWindow)
    → All EntryWithin entries
    → shared.count ≤ access_requests_global_window
    → IsBounded st
    → IsBounded (record st { contexts = entries; global_request_window = shared })
rewindow-IsBounded st entries shared h k b = record {
  requests = b.requests;
  leases = b.leases;
  pending = b.pending;
  own_pending = b.own_pending;
  shared_window = k;
  own_windows = h;
  within = b.within;
}

-- A reservation keeps the rate windows within their limits, whether it is granted or refused.
pub reserve_rate-IsBounded :
    (now : ℕ) (context : ConnectionContext) (st : BrokerState)
    → IsBounded st
    → IsBounded (reserve_access_request_rate now context st).0
unfolding reserve_access_request_rate
reserve_rate-IsBounded now context st b =
    let c = context.connection in
    let own = session_window now st.contexts c in
    let shared = reset_window_if_needed now st.global_request_window in
    let own_fine : own.count ≤ access_requests_per_session_window =
      session_window-within now st.contexts c b.own_windows in
    let shared_fine = reset-within now _ st.global_request_window b.shared_window in
    let stored = store_window-within c own st.contexts own_fine b.own_windows in
    elim (Bool-cases (leb access_requests_per_session_window own.count)) [
      | inl much ↦ rw much (rewindow-IsBounded st _ shared stored shared_fine b)
      | inr room ↦ elim (Bool-cases (leb access_requests_global_window shared.count)) [
        | inl much ↦ rw (room, much) (rewindow-IsBounded st _ shared stored shared_fine b)
        | inr spare ↦
            rw (room, spare)
              (rewindow-IsBounded st _ (bump shared)
                (store_window-within c (bump own) _ (ground arith) stored) (ground arith) b)
      ]
    ]

evict_requests-Tame :
    (rs : List AccessRequest) (st : BrokerState) → Tame st (evict_requests rs st).0
unfolding evict_requests
evict_requests-Tame [] st = Tame-refl st
evict_requests-Tame (r ∷ rest) st =
    let smaller = record st {
      access_requests = discard (request_has r.request_id) st.access_requests;
    } in
    let first =
      Tame-discard (request_has r.request_id) (λ _. false) st smaller refl
        (sym (discard-none st.leases)) refl refl in
    elim (Bool-cases (ltb (length smaller.access_requests) access_request_record_limit)) [
      | inl room ↦ rw room first
      | inr full ↦ rw full (Tame-trans st smaller _ first (evict_requests-Tame rest smaller))
    ]

evict_requests-room :
    (rs : List AccessRequest) (st t : BrokerState) (u : Unit {0})
    → evict_requests rs st ≡ (t, ok u)
    → length t.access_requests < access_request_record_limit
unfolding evict_requests
evict_requests-room [] st t u e = absurd (cc)
evict_requests-room (r ∷ rest) st t u e = ground (
  arith,
  evict_requests-room rest
      (record st { access_requests = discard (request_has r.request_id) st.access_requests }) t u,
)

ensure_capacity-Tame : (st : BrokerState) → Tame st (ensure_access_request_capacity st).0
unfolding ensure_access_request_capacity
ensure_capacity-Tame st =
    elim (Bool-cases (ltb (length st.access_requests) access_request_record_limit)) [
      | inl room ↦ rw (room, ensure_access_request_capacity) (Tame-refl st)
      | inr full ↦ rw (full, ensure_access_request_capacity) (evict_requests-Tame _ st)
    ]

ensure_capacity-room :
    (st t : BrokerState) (u : Unit {0})
    → ensure_access_request_capacity st ≡ (t, ok u)
    → length t.access_requests < access_request_record_limit
unfolding ensure_access_request_capacity
ensure_capacity-room st t u e =
    elim (Bool-cases (ltb (length st.access_requests) access_request_record_limit)) [
      | inl room ↦ ground arith
      | inr full ↦ evict_requests-room _ st t u (rw (full, ensure_access_request_capacity) at e)
    ]

-- What a passed check says of the pending counts.
check_pending_lem :
    (session : String) (st t : BrokerState) (u : Unit {0})
    → check_pending session st ≡ (t, ok u)
    → (session_pending session t.access_requests < access_pending_per_session_limit)
      × (global_pending t.access_requests < access_pending_global_limit)
unfolding check_pending
check_pending_lem session st t u e = ground arith

check_pending-Tame : (session : String) (st : BrokerState) → Tame st (check_pending session st).0
unfolding check_pending
check_pending-Tame session st =
    elim (Bool-cases
      (leb access_pending_per_session_limit (session_pending session st.access_requests))) [
        | inl much ↦ rw (much, check_pending) (Tame-refl st)
        | inr few ↦
            elim (Bool-cases
              (leb access_pending_global_limit (global_pending st.access_requests))) [
                | inl much ↦ rw (few, check_pending, much) (Tame-refl st)
                | inr fine ↦ rw (few, check_pending, fine) (Tame-refl st)
              ]
      ]

-- There is room for one more pending request of the session.
record HasRoom (session : String) (st : BrokerState) : Type 0 where
  bounded : IsBounded st
  records : length st.access_requests < access_request_record_limit
  own : session_pending session st.access_requests < access_pending_per_session_limit
  global : global_pending st.access_requests < access_pending_global_limit

add_request-IsBounded :
    (session : String) (r : AccessRequest) (st : BrokerState)
    → r.session_id ≡ session
    → HasRoom session st
    → IsBounded (add_request r st)
unfolding add_request global_pending session_pending
add_request-IsBounded session r st same room =
    let b = room.bounded in
    record {
      requests = omega (arith, length-append st.access_requests (r ∷ []), room.records);
      leases = b.leases;
      pending =
          ground (arith, count_if-append counts_globally st.access_requests (r ∷ []), room.global);
      own_pending = λ x. elim (Bool-cases (r.session_id === x)) [
        | inl mine ↦
            let is : x ≡ session = cc ((===_iff r.session_id x).0 mine) in
            rw is (
              ground
                (arith, count_if-append (counts_for session) st.access_requests (r ∷ []), room.own))
        | inr other ↦
            ground
              (arith, count_if-append (counts_for x) st.access_requests (r ∷ []), b.own_pending x)
      ];
      shared_window = b.shared_window;
      own_windows = b.own_windows;
      within = b.within;
    }

pub request_access-BoundedTo :
    (now : ℕ) (uuid : String) (audit_ok : Bool) (context : ConnectionContext) (q : AccessParams)
    (st : BrokerState)
    → IsBounded st
    → BoundedTo (request_access now uuid audit_ok context q st)
unfolding request_access new_request
request_access-BoundedTo now uuid audit_ok context q st b =
    bind-BoundedTo (TameTo-BoundedTo st _ (throw_if-TameTo _ _ st) b) λ _ s0 _ b0.
      bind-BoundedTo (TameTo-BoundedTo s0 _ (TameTo-of (expire_records-Tame now s0)) b0)
        λ _ s1 _ b1.
          bind-BoundedTo (record { bounded = reserve_rate-IsBounded now context s1 b1 })
            λ _ s2 _ b2.
              bind-BoundedTo (TameTo-BoundedTo s2 _ (session_of-TameTo context s2) b2)
                λ session s3 _ b3.
                  bind-BoundedTo
                    (TameTo-BoundedTo s3 _ (TameTo-of (check_pending-Tame session s3)) b3)
                    λ u4 s4 passed b4.
                      let (own, global) = check_pending_lem session s3 s4 u4 passed in
                      bind-BoundedTo
                        (TameTo-BoundedTo s4 _ (TameTo-of (ensure_capacity-Tame s4)) b4)
                        λ u5 s5 made b5.
                          let calm : Tame s4 s5 = rw made at (ensure_capacity-Tame s4) in
                          let room : HasRoom session s5 = record {
                            bounded = b5;
                            records = ensure_capacity-room s4 s5 u5 made;
                            own = omega (arith, calm.own_pending session);
                            global = omega arith;
                          } in
                          let r = new_request now uuid session context q in
                          bind-BoundedTo
                            (record { bounded = add_request-IsBounded session r s5 refl room })
                            λ _ s6 _ b6.
                              TameTo-BoundedTo s6 _
                                (bind-TameTo (audit-TameTo audit_ok _ s6)
                                  (λ _ t. return-TameTo _ t))
                                b6

pub list_pending-TameTo : (now : ℕ) (st : BrokerState) → TameTo st (list_pending_requests now st)
unfolding list_pending_requests
list_pending-TameTo now st = TameTo-of (expire_records-Tame now st)

deny_pending-TameTo :
    (now : ℕ) (audit_ok : Bool) (request_id : String) (st : BrokerState)
    → TameTo st (deny_pending now audit_ok request_id st)
unfolding deny_pending
deny_pending-TameTo now audit_ok request_id st =
    elim (Option-cases (find (request_has request_id) st.access_requests)) [
      | inl gone ↦ rw (gone, deny_pending) (TameTo-of (Tame-refl st))
      | inr (r, there) ↦ elim (Bool-cases (is_pending r.status)) [
        | inr over ↦ rw (there, deny_pending, over) (TameTo-of (Tame-refl st))
        | inl still ↦
            let denied = record st {
              access_requests =
                  update (request_has request_id) (deny_request now) st.access_requests;
            } in
            rw (there, deny_pending, still)
              (bind-TameTo
                (TameTo-of (
                  Tame-trans st denied _
                    (Tame-update (deny_request now) (λ x e. absurd (cc)) (λ x. refl)
                      (request_has request_id) st denied refl refl refl refl)
                    (TameTo.tame (audit-TameTo audit_ok _ denied))))
                (λ _ t. return-TameTo _ t))
      ]
    ]

pub browser_deny-TameTo :
    (p : Platform) (now : ℕ) (audit_ok : Bool) (request_id : String) (st : BrokerState)
    → TameTo st (browser_deny p now audit_ok request_id st)
unfolding browser_deny
browser_deny-TameTo p now audit_ok request_id st =
    bind-TameTo (throw_if-TameTo _ _ st) (λ _ t. deny_pending-TameTo now audit_ok request_id t)
