-- ===== src/Broker/Bounds/Finish.antt =====
-- The end of a browser command, apps/broker/src/broker-state.ts, keeps the counters of the leases in range.
use tabgrant.Common.{
  ℕ, ◌+◌, ◌≤◌, ◌≡◌, refl, ap, ◌∙◌, String, Bool, true, ◌&&◌, Option, none, some, inl, inr, List, [],
  ◌∷◌, length-update, find, update, arith, Option-cases, Bool-cases, ltb, ◌==◌, find-All, ===_iff,
  find-passes, by_cases,
}
use tabgrant.Broker.Constants.{snapshot_max_result_bytes}
use tabgrant.Broker.Records.{
  Lease, BrokerState, BrokerError, ok, err, lease_has, audit_event, allowed,
}
use tabgrant.Broker.Lifecycle.{is_lease_active}
use tabgrant.Broker.Commands.{
  Command, BrowserResult, failed, returned, is_snapshot, take_egress, give_egress, spend_egress,
  forget_bytes, has_bytes, reserve_snapshot_egress, held_lease, end_flight, settle_command, charge,
  deliver, answer_command, record_command, fail_command, set_lease, set_held, audit_command,
  audit_and_rethrow,
}
use tabgrant.Broker.Bounds.Tame.{
  total, LeaseWithin, IsBounded, Tame, Tame-refl, Tame-trans, Tame-IsBounded, Tame-of_same,
}
use tabgrant.Broker.Bounds.Monad.{TameTo, TameTo-of, BoundedTo}
use tabgrant.Broker.Bounds.Endings.{Tame-update_leases, is_lease_active-Tame, revoke_lease-Tame}
use tabgrant.Broker.Access.{is_lease_active-true}
use tabgrant.Broker.Bounds.Commands.{audit_and_rethrow-TameTo}
use tabgrant.Common.{All-update_each_found}

total-forget_bytes : (n : ℕ) (ns : List ℕ) → total (forget_bytes n ns) ≤ total ns
total-forget_bytes n [] = omega arith
total-forget_bytes n (m ∷ ns) =
    let h = total-forget_bytes n ns in
    by_cases (λ ks. total ks ≤ m + total ns) (m == n) (λ _. omega arith) (λ _. omega (arith, h))

total-has_bytes :
    (n : ℕ) (ns : List ℕ) → has_bytes n ns ≡ true → total (forget_bytes n ns) + n ≡ total ns
total-has_bytes n [] h = absurd (cc)
total-has_bytes n (m ∷ ns) h = elim (Bool-cases (m == n)) [
  | inl here ↦ rw here (ground arith)
  | inr on ↦ rw on (let rest = total-has_bytes n ns (rw on at h) in omega (arith, rest))
]

give_egress-LeaseWithin : (n : ℕ) (l : Lease) → LeaseWithin l → LeaseWithin (give_egress n l)
give_egress-LeaseWithin n l h =
    by_cases LeaseWithin (has_bytes n l.reserved_bytes)
      (λ own. record {
        flight = h.flight;
        pace = h.pace;
        uses = h.uses;
        egress = omega (arith, total-has_bytes n l.reserved_bytes own, h.egress);
        mirrors = h.mirrors;
        lifetime = h.lifetime;
      })
      (λ _. h)

spend_egress-LeaseWithin : (n : ℕ) (l : Lease) → LeaseWithin l → LeaseWithin (spend_egress n l)
spend_egress-LeaseWithin n l h = record {
  flight = h.flight;
  pace = h.pace;
  uses = h.uses;
  egress = omega (arith, total-forget_bytes n l.reserved_bytes, h.egress);
  mirrors = h.mirrors;
  lifetime = h.lifetime;
}

take_egress-LeaseWithin :
    (n : ℕ) (l : Lease)
    → n ≤ l.remaining_egress_bytes
    → LeaseWithin l
    → LeaseWithin (take_egress n l)
take_egress-LeaseWithin n l e h = record {
  flight = h.flight;
  pace = h.pace;
  uses = h.uses;
  egress = omega (arith, e, h.egress);
  mirrors = h.mirrors;
  lifetime = h.lifetime;
}

pub reserve_snapshot_egress-ok :
    (l : Lease) (size : Option ℕ) (st t : BrokerState) (n : ℕ)
    → reserve_snapshot_egress l size st ≡ (t, ok n)
    → (t ≡ set_lease l.lease_id (take_egress n) st)
      × (n ≤ l.remaining_egress_bytes)
      × (n ≤ snapshot_max_result_bytes)
      × (size ≡ some n)
unfolding reserve_snapshot_egress
reserve_snapshot_egress-ok l none st t n e = absurd (cc)
reserve_snapshot_egress-ok l (some m) st t n e =
    elim (Bool-cases (ltb snapshot_max_result_bytes m)) [
      | inl large ↦ absurd (cc (rw large at e))
      | inr small ↦ elim (Bool-cases (ltb l.remaining_egress_bytes m)) [
        | inl over ↦ absurd (cc (rw (small, over) at e))
        | inr fits ↦
            let e' = rw (small, fits) at e in
            let is : m ≡ n = cc in
            (rw (← is) (cc), rw (← is) (ground arith), rw (← is) (ground arith), ap some is)
      ]
    ]

-- Taking bytes from a lease that has them, where it is the one that a command holds.
take_egress-IsBounded :
    (l : Lease) (n : ℕ) (st : BrokerState)
    → IsBounded st
    → held_lease l.lease_id st ≡ some l
    → n ≤ l.remaining_egress_bytes
    → IsBounded (set_lease l.lease_id (take_egress n) st)
unfolding held_lease
take_egress-IsBounded l n st b h enough =
    let id = l.lease_id in
    let there : (a : Lease) → find (lease_has id) st.leases ≡ some a → l ≡ a =
      λ a e. cc (rw (held_lease, e) at h) in
    record {
      requests = b.requests;
      leases = omega (arith, b.leases, length-update (lease_has id) (take_egress n) st.leases);
      pending = b.pending;
      own_pending = b.own_pending;
      shared_window = b.shared_window;
      own_windows = b.own_windows;
      within =
          All-update_each_found (lease_has id) (take_egress n) LeaseWithin st.leases
            (λ a e.
              take_egress-LeaseWithin n a (rw (there a e) at enough)
                (find-All LeaseWithin (lease_has id) st.leases a e b.within))
            b.within;
    }

reserve_snapshot_egress-BoundedTo :
    (l : Lease) (size : Option ℕ) (st : BrokerState)
    → IsBounded st
    → held_lease l.lease_id st ≡ some l
    → BoundedTo (reserve_snapshot_egress l size st)
unfolding reserve_snapshot_egress
reserve_snapshot_egress-BoundedTo l none st b h = record { bounded = b }
reserve_snapshot_egress-BoundedTo l (some n) st b h =
    elim (Bool-cases (ltb snapshot_max_result_bytes n)) [
      | inl large ↦ rw large (record { bounded = b })
      | inr small ↦ elim (Bool-cases (ltb l.remaining_egress_bytes n)) [
        | inl over ↦ rw (small, over) (record { bounded = b })
        | inr fits ↦
            rw (small, fits) (record { bounded = take_egress-IsBounded l n st b h (ground arith) })
      ]
    ]

charge-BoundedTo :
    (l : Lease) (c : Command) (size : Option ℕ) (st : BrokerState)
    → IsBounded st
    → held_lease l.lease_id st ≡ some l
    → BoundedTo (charge l c size st)
unfolding charge
charge-BoundedTo l c size st b h = elim (Bool-cases (is_snapshot c)) [
  | inl shot ↦ rw (shot, charge) (reserve_snapshot_egress-BoundedTo l size st b h)
  | inr plain ↦ rw (plain, charge) (record { bounded = b })
]

pub held_lease-id :
    (id : String) (l : Lease) (st : BrokerState) → held_lease id st ≡ some l → l.lease_id ≡ id
unfolding held_lease
held_lease-id id l st e = elim (Option-cases (find (lease_has id) st.leases)) [
  | inr (a, there) ↦
      let is : a ≡ l = cc (rw (held_lease, there) at e) in
      (===_iff l.lease_id id).0 (find-passes (lease_has id) st.leases l (there ∙ ap some is))
  | inl gone ↦
      (===_iff l.lease_id id).0
        (find-passes (lease_has id) st.detached l (rw (held_lease, gone) at e))
]

deliver-BoundedTo :
    (now : ℕ) (l : Lease) (c : Command) (result : BrowserResult) (st : BrokerState)
    → IsBounded st
    → held_lease l.lease_id st ≡ some l
    → BoundedTo (deliver now l c result st)
unfolding deliver
deliver-BoundedTo now l c (failed e) st b h = record { bounded = b }
deliver-BoundedTo now l c (returned size) st b h =
    let swept = (is_lease_active now l st).0 in
    let b' = Tame-IsBounded st swept (is_lease_active-Tame now l st) b in
    elim (Bool-cases (is_lease_active now l st).1) [
      | inr over ↦ rw (deliver, over) (record { bounded = b' })
      | inl live ↦
          let (same, _) = is_lease_active-true now l st live in
          rw (deliver, live) (charge-BoundedTo l c size swept b' (rw same h))
    ]

pub answer_command-BoundedTo :
    (now : ℕ) (id : String) (c : Command) (result : BrowserResult) (st : BrokerState)
    → IsBounded st
    → BoundedTo (answer_command now id c result st)
unfolding answer_command
answer_command-BoundedTo now id c result st b = elim (Option-cases (held_lease id st)) [
  | inl gone ↦ rw (gone, answer_command) (record { bounded = b })
  | inr (l, held) ↦
      rw (held, answer_command)
        (deliver-BoundedTo now l c result st b
          (ap (λ i. held_lease i st) (held_lease-id id l st held) ∙ held))
]

settle_command-Tame :
    (now : ℕ) (id : String) (st : BrokerState) → Tame st (settle_command now id st)
unfolding settle_command
settle_command-Tame now id st =
    let landed = record st {
      leases = update (lease_has id) end_flight st.leases;
      detached = update (lease_has id) end_flight st.detached;
    } in
    let first : Tame st landed =
      Tame-update_leases (lease_has id) end_flight (λ l h. ground arith) st landed refl refl refl
        refl in
    elim (Option-cases (find (lease_has id) landed.leases)) [
      | inl gone ↦ rw (gone, settle_command) first
      | inr (l, there) ↦
          elim (Bool-cases (l.policy_lease.remaining_uses == 0 && l.in_flight == 0)) [
            | inl spent ↦
                rw (there, settle_command, spent)
                  (Tame-trans st landed _ first
                    (revoke_lease-Tame now "USE_LIMIT_EXHAUSTED" l landed))
            | inr left ↦ rw (there, settle_command, left) first
          ]
    ]

set_held-Tame :
    (id : String) (f : Lease → Lease)
    → ((l : Lease) → LeaseWithin l → LeaseWithin (f l))
    → (st : BrokerState) → Tame st (set_held id f st)
set_held-Tame id f sound st = Tame-update_leases (lease_has id) f sound st _ refl refl refl refl

pub record_command-TameTo :
    (now : ℕ) (audit_ok : Bool) (id : String) (c : Command) (bytes : ℕ) (st : BrokerState)
    → TameTo st (record_command now audit_ok id c bytes st)
unfolding record_command
record_command-TameTo now audit_ok id c bytes st = elim (Option-cases (held_lease id st)) [
  | inl gone ↦ rw (gone, record_command) (TameTo-of (Tame-refl st))
  | inr (l, held) ↦
      let event = audit_command c (audit_event "browser.command" allowed) l in
      let written = record st { audited = event ∷ st.audited } in
      let spent = set_held id (spend_egress bytes) written in
      elim (Bool-cases audit_ok) [
        | inl fine ↦
            rw (held, record_command, fine)
              (TameTo-of (
                Tame-trans st written _ (Tame-of_same st written refl refl refl refl) (
                  Tame-trans written spent _
                    (set_held-Tame id (spend_egress bytes) (spend_egress-LeaseWithin bytes) written)
                    (settle_command-Tame now id spent))))
        | inr bad ↦
            rw (held, record_command, bad)
              (TameTo-of (set_held-Tame id (give_egress bytes) (give_egress-LeaseWithin bytes) st))
      ]
]

pub fail_command-TameTo :
    (now : ℕ) (audit_ok : Bool) (id : String) (c : Command) (e : BrokerError) (st : BrokerState)
    → TameTo st (fail_command now audit_ok id c e st)
unfolding fail_command
fail_command-TameTo now audit_ok id c e st = elim (Option-cases (held_lease id st)) [
  | inl gone ↦ rw (gone, fail_command) (TameTo-of (Tame-refl st))
  | inr (l, held) ↦
      rw (held, fail_command)
        (TameTo-of (
          Tame-trans st _ _
            (TameTo.tame
              (audit_and_rethrow-TameTo audit_ok c l st (st, err e) (TameTo-of (Tame-refl st))))
            (settle_command-Tame now id
              (audit_and_rethrow {A = Unit {0}} audit_ok c l (st, err e)).0)))
]
