-- ===== src/Broker/Bounds/Tame.antt =====
-- The invariant, and the steps that only end or drop records: they keep it, and compose.
use tabgrant.Common.{
  ℕ, List, [], ◌∷◌, ◌+◌, ◌≤◌, ◌≡◌, refl, ◌∙◌, String, Option, none, some, length, All, is_none,
  arith,
}
use tabgrant.Policy.Grant.{is_active}
use tabgrant.Broker.Constants.{
  access_request_record_limit, lease_record_limit, access_pending_global_limit,
  access_pending_per_session_limit, access_requests_global_window,
  access_requests_per_session_window, lease_max_in_flight, lease_commands_per_window,
  lease_use_limit, lease_egress_budget_bytes, max_lease_ttl_ms,
}
use tabgrant.Broker.Records.{FixedWindow, Lease, ContextEntry, BrokerState}
use tabgrant.Broker.Requests.{global_pending, session_pending}

abbrev pub total : List ℕ → ℕ
total [] = 0
total (n ∷ ns) = n + total ns

-- The counters of a lease are in range, its policy lease mirrors whether it is revoked, and it is short.
pub record LeaseWithin (l : Lease) : Type 0 where
  pub flight : l.in_flight ≤ lease_max_in_flight
  pub pace : l.commands_in_window ≤ lease_commands_per_window
  pub uses : l.policy_lease.remaining_uses ≤ lease_use_limit
  pub egress : l.remaining_egress_bytes + total l.reserved_bytes ≤ lease_egress_budget_bytes
  pub mirrors : is_active l.policy_lease.state ≡ is_none l.revoked_at
  pub lifetime : l.expires_at ≤ l.issued_at + max_lease_ttl_ms

abbrev pub WindowWithin : Option FixedWindow → Type 0
WindowWithin none = Unit
WindowWithin (some w) = w.count ≤ access_requests_per_session_window

abbrev pub EntryWithin : ContextEntry → Type 0
EntryWithin e = WindowWithin e.request_window

pub record IsBounded (st : BrokerState) : Type 0 where
  pub requests : length st.access_requests ≤ access_request_record_limit
  pub leases : length st.leases ≤ lease_record_limit
  pub pending : global_pending st.access_requests ≤ access_pending_global_limit
  pub own_pending :
      (session : String)
      → session_pending session st.access_requests ≤ access_pending_per_session_limit
  pub shared_window : st.global_request_window.count ≤ access_requests_global_window
  pub own_windows : All EntryWithin st.contexts
  pub within : All LeaseWithin st.leases

-- A step that adds no record, makes no request pending, and leaves the rate windows alone.
pub record Tame (s t : BrokerState) : Type 0 where
  pub requests : length t.access_requests ≤ length s.access_requests
  pub leases : length t.leases ≤ length s.leases
  pub pending : global_pending t.access_requests ≤ global_pending s.access_requests
  pub own_pending :
      (session : String)
      → session_pending session t.access_requests ≤ session_pending session s.access_requests
  pub shared_window : t.global_request_window ≡ s.global_request_window
  pub own_windows : t.contexts ≡ s.contexts
  pub within : All LeaseWithin s.leases → All LeaseWithin t.leases

pub Tame-refl : (s : BrokerState) → Tame s s
Tame-refl s = record {
  requests = omega arith;
  leases = omega arith;
  pending = omega arith;
  own_pending = λ x. omega arith;
  shared_window = refl;
  own_windows = refl;
  within = λ h. h;
}

pub Tame-trans : (s t u : BrokerState) → Tame s t → Tame t u → Tame s u
Tame-trans s t u a b = record {
  requests = omega arith;
  leases = omega arith;
  pending = omega arith;
  own_pending = λ x. omega (arith, a.own_pending x, b.own_pending x);
  shared_window = b.shared_window ∙ a.shared_window;
  own_windows = b.own_windows ∙ a.own_windows;
  within = λ h. b.within (a.within h);
}

pub Tame-IsBounded : (s t : BrokerState) → Tame s t → IsBounded s → IsBounded t
Tame-IsBounded s t a b = record {
  requests = omega arith;
  leases = omega arith;
  pending = omega arith;
  own_pending = λ x. omega (arith, a.own_pending x, b.own_pending x);
  shared_window = rw a.shared_window b.shared_window;
  own_windows = rw a.own_windows b.own_windows;
  within = a.within b.within;
}

-- Steps that change neither requests, leases nor windows: messages, audit records, browsers.
pub Tame-of_same :
    (s t : BrokerState)
    → t.access_requests ≡ s.access_requests
    → t.leases ≡ s.leases
    → t.global_request_window ≡ s.global_request_window
    → t.contexts ≡ s.contexts
    → Tame s t
Tame-of_same s t r l g c = record {
  requests = rw r (omega arith);
  leases = rw l (omega arith);
  pending = rw r (omega arith);
  own_pending = λ x. rw r (omega arith);
  shared_window = g;
  own_windows = c;
  within = λ h. rw l h;
}
