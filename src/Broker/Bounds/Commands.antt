-- ===== src/Broker/Bounds/Commands.antt =====
-- The start of a browser command, apps/broker/src/broker-state.ts, keeps the counters of the leases in range.
use tabgrant.Common.{
  ℕ, ◌≡◌, refl, sym, ap, ◌∙◌, String, Bool, true, false, not, List, Option, none, some, inl, inr,
  length-update, find, arith, Option-cases, Bool-cases, leb, ◌==◌, find-All, find-update_self,
  All-update_found, ◌||◌, ◌===◌, ===_iff, find-passes,
}
use tabgrant.Protocol.Platform.{Platform, Url}
use tabgrant.Protocol.Primitives.{http_url}
use tabgrant.Protocol.Decision.{PolicyDecision}
use tabgrant.Broker.Constants.{lease_max_in_flight, lease_commands_per_window}
use tabgrant.Broker.Records.{
  Lease, ConnectionContext, BrokerState, BrokerError, Result, ok, err, throw_if, lease_has,
  browser_has,
}
use tabgrant.Broker.Lifecycle.{is_lease_active}
use tabgrant.Broker.Commands.{
  Command, snapshot, highlight, scroll_by, navigate_to, active_lease, action_for_command,
  follow_decision, authorize_command, open_window, reserve_one, reserve_command, audit_and_rethrow,
  start_command, check_destination, check_scopes, begin_command, denied_event, set_lease,
}
use tabgrant.Broker.Bounds.Tame.{
  LeaseWithin, IsBounded, Tame, Tame-refl, Tame-trans, Tame-IsBounded,
}
use tabgrant.Broker.Bounds.Monad.{
  TameTo, TameTo-of, BoundedTo, bind-TameTo, bind-BoundedTo, TameTo-BoundedTo, return-TameTo,
  throw_if-TameTo, audit-TameTo,
}
use tabgrant.Broker.Bounds.Endings.{Tame-update_leases, is_lease_active-Tame, revoke_lease-Tame}
use tabgrant.Broker.Inversion.{throw_if-then}
use tabgrant.Broker.Access.{active_lease-IsOwned}
use tabgrant.Broker.Bounds.Grants.{owned_lease-TameTo}

set_lease-Tame :
    (id : String) (f : Lease → Lease)
    → ((l : Lease) → LeaseWithin l → LeaseWithin (f l))
    → (st : BrokerState) → Tame st (set_lease id f st)
set_lease-Tame id f sound st = Tame-update_leases (lease_has id) f sound st _ refl refl refl refl

open_window-LeaseWithin : (now : ℕ) (l : Lease) → LeaseWithin l → LeaseWithin (open_window now l)
open_window-LeaseWithin now l h = ground arith

open_window-in_flight : (now : ℕ) (l : Lease) → (open_window now l).in_flight ≡ l.in_flight
open_window-in_flight now l = ground arith

reserve_one-LeaseWithin :
    (now : ℕ) (l : Lease)
    → leb lease_max_in_flight l.in_flight ≡ false
    → leb lease_commands_per_window l.commands_in_window ≡ false
    → LeaseWithin l
    → LeaseWithin (reserve_one now l)
reserve_one-LeaseWithin now l idle slow h = record {
  flight = ground arith;
  pace = ground arith;
  uses = omega arith;
  egress = h.egress;
  mirrors = h.mirrors;
  lifetime = h.lifetime;
}

active_lease-TameTo :
    (now : ℕ) (context : ConnectionContext) (id : String) (st : BrokerState)
    → TameTo st (active_lease now context id st)
unfolding active_lease
active_lease-TameTo now context id st = bind-TameTo (owned_lease-TameTo context id st) λ l s0.
    elim (Bool-cases (is_lease_active now l s0).1) [
      | inl yes' ↦ rw yes' (TameTo-of (is_lease_active-Tame now l s0))
      | inr no' ↦ rw no' (TameTo-of (is_lease_active-Tame now l s0))
    ]

pub audit_and_rethrow-TameTo :
    {A : Type 0} (audit_ok : Bool) (c : Command) (l : Lease) (s : BrokerState)
    (r : BrokerState × Result A)
    → TameTo s r
    → TameTo s (audit_and_rethrow audit_ok c l r)
audit_and_rethrow-TameTo audit_ok c l s (t, ok a) h = h
audit_and_rethrow-TameTo audit_ok c l s (t, err e) h =
    bind-TameTo
      (TameTo-of
        (Tame-trans s t _ h.tame (TameTo.tame (audit-TameTo audit_ok (denied_event c e l) t))))
      (λ _ u. TameTo-of (Tame-refl u))

check_destination-TameTo :
    (p : Platform) (o : Option Url) (l : Lease) (st : BrokerState)
    → TameTo st (check_destination p o l st)
check_destination-TameTo p none l st = TameTo-of (Tame-refl st)
check_destination-TameTo p (some u) l st =
    elim (Bool-cases (not (u.origin === l.origin) || not (http_url u))) [
      | inl off ↦ rw off (TameTo-of (Tame-refl st))
      | inr fine ↦ rw fine (TameTo-of (Tame-refl st))
    ]

check_scopes-TameTo :
    (p : Platform) (l : Lease) (c : Command) (st : BrokerState) → TameTo st (check_scopes p l c st)
unfolding check_scopes
check_scopes-TameTo p l (snapshot n) st =
    bind-TameTo (throw_if-TameTo _ _ st)
      λ _ s0. bind-TameTo (throw_if-TameTo _ _ s0) λ _ s1. return-TameTo _ s1
check_scopes-TameTo p l (highlight r e) st =
    bind-TameTo (throw_if-TameTo _ _ st) λ _ s0. return-TameTo _ s0
check_scopes-TameTo p l (scroll_by d) st =
    bind-TameTo (throw_if-TameTo _ _ st) λ _ s0. return-TameTo _ s0
check_scopes-TameTo p l (navigate_to a) st =
    bind-TameTo (throw_if-TameTo _ _ st) λ _ s0. check_destination-TameTo p (p.new_url a) l s0

follow_decision-TameTo :
    (o : Option PolicyDecision) (st : BrokerState) → TameTo st (follow_decision o st)
follow_decision-TameTo none st = TameTo-of (Tame-refl st)
follow_decision-TameTo (some d) st = throw_if-TameTo _ _ st

authorize_command-TameTo :
    (p : Platform) (secret : String) (now : ℕ) (l : Lease) (c : Command) (st : BrokerState)
    → TameTo st (authorize_command p secret now l c st)
unfolding authorize_command
authorize_command-TameTo p secret now l c st = elim (Option-cases (action_for_command c)) [
  | inl plain ↦ rw (plain, authorize_command) (throw_if-TameTo _ _ st)
  | inr (a, e) ↦ rw (e, authorize_command) (follow_decision-TameTo _ st)
]

-- A reservation on the lease that the map holds.
reserve_command-BoundedTo :
    (now : ℕ) (l : Lease) (st : BrokerState)
    → find (lease_has l.lease_id) st.leases ≡ some l
    → IsBounded st
    → BoundedTo (reserve_command now l st)
unfolding reserve_command
reserve_command-BoundedTo now l st current b =
    let id = l.lease_id in
    let opened = open_window now l in
    let st' = set_lease id (open_window now) st in
    let b' =
      Tame-IsBounded st st' (set_lease-Tame id (open_window now) (open_window-LeaseWithin now) st)
        b in
    let held =
      find-update_self (lease_has id) (open_window now) (λ a. ground arith) st.leases l current in
    let fine = find-All LeaseWithin (lease_has id) st'.leases opened held b'.within in
    elim (Bool-cases (leb lease_max_in_flight l.in_flight)) [
      | inl busy ↦ rw busy (record { bounded = b })
      | inr idle ↦ elim (Bool-cases (leb lease_commands_per_window opened.commands_in_window)) [
        | inl fast ↦ rw (idle, fast) (record { bounded = b' })
        | inr slow ↦ elim (Bool-cases (opened.policy_lease.remaining_uses == 0)) [
          | inl spent ↦ rw (idle, slow, spent) (record { bounded = b' })
          | inr left ↦
              rw (idle, slow, left)
                (record {
                  bounded = record {
                    requests = b'.requests;
                    pending = b'.pending;
                    own_pending = b'.own_pending;
                    shared_window = b'.shared_window;
                    own_windows = b'.own_windows;
                    leases = omega (
                      arith,
                      b'.leases,
                      length-update (lease_has id) (reserve_one now) st'.leases,
                    );
                    within =
                        All-update_found (lease_has id) (reserve_one now) LeaseWithin st'.leases
                          opened held
                          (reserve_one-LeaseWithin now opened
                            (rw (open_window-in_flight now l) idle) slow fine)
                          b'.within;
                  };
                })
        ]
      ]
    ]

audit_and_rethrow-BoundedTo :
    {A : Type 0} (audit_ok : Bool) (c : Command) (l : Lease) (r : BrokerState × Result A)
    → BoundedTo r
    → BoundedTo (audit_and_rethrow audit_ok c l r)
audit_and_rethrow-BoundedTo audit_ok c l (t, ok a) h = h
audit_and_rethrow-BoundedTo audit_ok c l (t, err e) h =
    bind-BoundedTo (TameTo-BoundedTo t _ (audit-TameTo audit_ok (denied_event c e l) t) h.bounded)
      λ _ u _ b. record { bounded = b }

throw_if-same : (b : Bool) (e : BrokerError) (s : BrokerState) → (throw_if b e s).0 ≡ s
unfolding throw_if
throw_if-same true e s = refl
throw_if-same false e s = refl

follow_decision-same : (o : Option PolicyDecision) (s : BrokerState) → (follow_decision o s).0 ≡ s
follow_decision-same none s = refl
follow_decision-same (some d) s = throw_if-same _ _ s

-- What authorization leaves behind.
authorize_command-same :
    (p : Platform) (secret : String) (now : ℕ) (l : Lease) (c : Command) (st : BrokerState)
    → (authorize_command p secret now l c st).0 ≡ st
unfolding authorize_command
authorize_command-same p secret now l c st = elim (Option-cases (action_for_command c)) [
  | inl plain ↦ rw (plain, authorize_command) (throw_if-same _ _ st)
  | inr (a, e) ↦ rw (e, authorize_command) (follow_decision-same _ st)
]

check_destination-ok :
    (p : Platform) (o : Option Url) (l : Lease) (st t : BrokerState) (d : Command)
    → check_destination p o l st ≡ (t, ok d)
    → t ≡ st
check_destination-ok p none l st t d h = absurd (cc)
check_destination-ok p (some u) l st t d h =
    elim (Bool-cases (not (u.origin === l.origin) || not (http_url u))) [
      | inl off ↦ absurd (cc (rw off at h))
      | inr fine ↦ let h' = rw fine at h in cc
    ]

check_scopes-ok :
    (p : Platform) (l : Lease) (c : Command) (st t : BrokerState) (d : Command)
    → check_scopes p l c st ≡ (t, ok d)
    → t ≡ st
unfolding check_scopes
check_scopes-ok p l (snapshot n) st t d h =
    let (_, h1) = throw_if-then _ _ _ h in let (_, h2) = throw_if-then _ _ _ h1 in cc
check_scopes-ok p l (highlight r e) st t d h = let (_, h1) = throw_if-then _ _ _ h in cc
check_scopes-ok p l (scroll_by n) st t d h = let (_, h1) = throw_if-then _ _ _ h in cc
check_scopes-ok p l (navigate_to a) st t d h =
    let (_, h1) = throw_if-then _ _ _ h in check_destination-ok p (p.new_url a) l st t d h1

start_command-BoundedTo :
    (p : Platform) (secret : String) (now : ℕ) (audit_ok : Bool) (l : Lease) (c : Command)
    (st : BrokerState)
    → find (lease_has l.lease_id) st.leases ≡ some l
    → IsBounded st
    → BoundedTo (start_command p secret now audit_ok l c st)
unfolding start_command
start_command-BoundedTo p secret now audit_ok l c st current b =
    elim (Option-cases (find (browser_has l.browser_instance_id) st.browsers)) [
      | inl gone ↦
          rw (gone, start_command)
            (record {
              bounded = Tame-IsBounded st _ (revoke_lease-Tame now "BROWSER_DISCONNECTED" l st) b;
            })
      | inr (browser, there) ↦
          rw (there, start_command)
            (bind-BoundedTo
              (audit_and_rethrow-BoundedTo audit_ok c l _ (
                bind-BoundedTo
                  (TameTo-BoundedTo st _ (authorize_command-TameTo p secret now l c st) b)
                  λ _ s0 e0 b0.
                    let same : s0 ≡ st =
                      sym (ap (λ r. r.0) e0) ∙ authorize_command-same p secret now l c st in
                    reserve_command-BoundedTo now l s0 (rw same current) b0))
              λ _ s1 _ b1. record { bounded = b1 })
    ]

-- `lease_id` finds the lease that the map holds under it.
pub held_under_its_id :
    (id : String) (leases : List Lease) (l : Lease)
    → find (lease_has id) leases ≡ some l
    → find (lease_has l.lease_id) leases ≡ some l
held_under_its_id id leases l e =
    let same : l.lease_id ≡ id =
      (===_iff l.lease_id id).0 (find-passes (lease_has id) leases l e) in
    ap (λ i. find (lease_has i) leases) same ∙ e

pub begin_command-BoundedTo :
    (p : Platform) (secret : String) (now : ℕ) (audit_ok : Bool) (context : ConnectionContext)
    (id : String) (c : Command) (st : BrokerState)
    → IsBounded st
    → BoundedTo (begin_command p secret now audit_ok context id c st)
unfolding begin_command
begin_command-BoundedTo p secret now audit_ok context id c st b =
    bind-BoundedTo (TameTo-BoundedTo st _ (throw_if-TameTo _ _ st) b) λ _ s0 _ b0.
      bind-BoundedTo (TameTo-BoundedTo s0 _ (active_lease-TameTo now context id s0) b0)
        λ l s1 e1 b1.
          bind-BoundedTo (TameTo-BoundedTo s1 _ (check_scopes-TameTo p l c s1) b1) λ d s2 e2 b2.
            let (same1, owned, _) = active_lease-IsOwned now context id s0 e1 in
            let same2 = check_scopes-ok p l c s1 s2 d e2 in
            start_command-BoundedTo p secret now audit_ok l d s2
              (rw (same2, same1) (held_under_its_id id s0.leases l owned.held)) b2
