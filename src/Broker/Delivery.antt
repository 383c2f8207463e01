-- ===== src/Broker/Delivery.antt =====
-- What stands behind a result that `executeWithLease` of apps/broker/src/broker-state.ts takes from the
-- browser. The look at the lease is before the audit record is awaited, and there is none after it.
use tabgrant.Common.{
  ℕ, ◌+◌, ◌≤◌, ◌≡◌, refl, sym, ◌∙◌, subst, arith, String, true, false, Option, none, some, inl, inr,
  Bool-cases, Option-cases, find, find-update_self,
}
use tabgrant.Broker.Constants.{snapshot_max_result_bytes}
use tabgrant.Broker.Records.{Lease, BrokerState, ok, lease_has}
use tabgrant.Broker.Lifecycle.{is_lease_active}
use tabgrant.Broker.Commands.{
  Command, BrowserResult, failed, returned, is_snapshot, held_lease, charge, take_egress, set_lease,
  reserve_snapshot_egress, deliver, answer_command,
}
use tabgrant.Broker.Access.{IsLive, is_lease_active-true}
use tabgrant.Broker.Bounds.Finish.{reserve_snapshot_egress-ok, held_lease-id}

-- Between `s` and `t` so many bytes are taken from the lease, if the map still has it.
pub data Taken (id : String) (l : Lease) (bytes : ℕ) (s t : BrokerState) : Type 0 where
  from_map :
      (after : Lease)
      → find (lease_has id) t.leases ≡ some after
      → after.remaining_egress_bytes + bytes ≡ l.remaining_egress_bytes
      → Taken id l bytes s t
  detached : find (lease_has id) s.leases ≡ none → Taken id l bytes s t

-- A snapshot has a size that its lease can still pay, and pays it; other results are free.
pub data Paid (id : String) (l : Lease) (c : Command) (size : Option ℕ) (bytes : ℕ)
    (s t : BrokerState) : Type 0 where
  free : is_snapshot c ≡ false → bytes ≡ 0 → t ≡ s → Paid id l c size bytes s t
  charged :
      is_snapshot c ≡ true
      → size ≡ some bytes
      → bytes ≤ l.remaining_egress_bytes
      → bytes ≤ snapshot_max_result_bytes
      → Taken id l bytes s t
      → Paid id l c size bytes s t

-- The lease of a result that is accepted, when the browser has answered in the state `s`.
pub record Delivered (now : ℕ) (id : String) (c : Command) (result : BrowserResult)
    (s t : BrokerState) (bytes : ℕ) : Type 0 where
  pub lease : Lease
  pub size : Option ℕ
  pub held : held_lease id s ≡ some lease
  pub live : IsLive now lease
  pub answered : result ≡ returned size
  pub paid : Paid id lease c size bytes s t

held_lease-found :
    (id : String) (l a : Lease) (s : BrokerState)
    → held_lease id s ≡ some l
    → find (lease_has id) s.leases ≡ some a
    → a ≡ l
unfolding held_lease
held_lease-found id l a s h e = cc (rw (held_lease, e) at h)

take_egress-Taken :
    (id : String) (l : Lease) (bytes : ℕ) (s : BrokerState)
    → held_lease id s ≡ some l
    → bytes ≤ l.remaining_egress_bytes
    → Taken id l bytes s (set_lease id (take_egress bytes) s)
take_egress-Taken id l bytes s held enough = elim (Option-cases (find (lease_has id) s.leases)) [
  | inl gone ↦ detached gone
  | inr (a, found) ↦
      let is : a ≡ l = held_lease-found id l a s held found in
      from_map (take_egress bytes a)
        (find-update_self (lease_has id) (take_egress bytes) (λ x. refl) s.leases a found)
        (rw is (omega (arith, enough)))
]

charge-Paid :
    (id : String) (l : Lease) (c : Command) (size : Option ℕ) (s t : BrokerState) (bytes : ℕ)
    → held_lease id s ≡ some l
    → id ≡ l.lease_id
    → charge l c size s ≡ (t, ok bytes)
    → Paid id l c size bytes s t
unfolding charge
charge-Paid id l c size s t bytes held own e = elim (Bool-cases (is_snapshot c)) [
  | inr plain ↦ let e' = rw (plain, charge) at e in free plain (cc) (cc)
  | inl shot ↦
      let is : charge l c size s ≡ reserve_snapshot_egress l size s = rw (shot, charge) refl in
      let (after, fits, small, sized) = reserve_snapshot_egress-ok l size s t bytes (sym is ∙ e) in
      charged shot sized fits small (
        rw after (
          subst (λ i. Taken id l bytes s (set_lease i (take_egress bytes) s)) own
            (take_egress-Taken id l bytes s held fits)))
]

deliver-Delivered :
    (now : ℕ) (id : String) (l : Lease) (c : Command) (size : Option ℕ) (s t : BrokerState)
    (bytes : ℕ)
    → held_lease id s ≡ some l
    → deliver now l c (returned size) s ≡ (t, ok bytes)
    → Delivered now id c (returned size) s t bytes
unfolding deliver
deliver-Delivered now id l c size s t bytes held h = elim (Bool-cases (is_lease_active now l s).1) [
  | inr over ↦ absurd (cc (rw (deliver, over) at h))
  | inl live ↦
      let (same, lively) = is_lease_active-true now l s live in
      record {
        lease = l;
        size = size;
        held = held;
        live = lively;
        answered = refl;
        paid =
            charge-Paid id l c size s t bytes held (sym (held_lease-id id l s held))
              (rw same at (rw (deliver, live) at h));
      }
]

-- A result of the browser is accepted, and the record of success awaited, only if the browser returned one and
-- the lease is live at the moment of the answer; a snapshot has a known size within 256000 bytes and within what
-- is left of its lease's budget, which is smaller by it afterwards if the map still holds the lease, and any other
-- command leaves the state as it is. Whether the lease still lives when the record is written is not looked at.
pub answer_command-Delivered :
    (now : ℕ) (id : String) (c : Command) (result : BrowserResult) (s t : BrokerState) (bytes : ℕ)
    → answer_command now id c result s ≡ (t, ok bytes)
    → Delivered now id c result s t bytes
unfolding answer_command deliver
answer_command-Delivered now id c (failed e) s t bytes h = elim (Option-cases (held_lease id s)) [
  | inl gone ↦ absurd (cc (rw (answer_command, gone) at h))
  | inr (l, held) ↦ absurd (cc (rw (answer_command, held) at h))
]
answer_command-Delivered now id c (returned size) s t bytes h =
    elim (Option-cases (held_lease id s)) [
      | inl gone ↦ absurd (cc (rw (answer_command, gone) at h))
      | inr (l, held) ↦
          deliver-Delivered now id l c size s t bytes held (rw (answer_command, held) at h)
    ]
