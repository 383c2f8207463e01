-- ===== src/Broker/Authority.antt =====
-- What stands behind a command that `executeWithLease` of apps/broker/src/broker-state.ts sends to a
-- browser.
use tabgrant.Common.{
  ℕ, ◌<◌, ◌≡◌, refl, sym, ap, ◌∙◌, subst, String, Bool, true, false, not, ◌||◌, List, [], ◌∷◌,
  Option, none, some, inl, inr, All, arith, ◌+◌, ◌-◌, ◌≤◌, find-update_self, find-passes, find,
  update, Option-cases, Bool-cases, leb, ◌==◌, ◌===◌, ===_iff,
}
use tabgrant.Protocol.Platform.{Platform, Url}
use tabgrant.Protocol.Primitives.{http_url}
use tabgrant.Protocol.Actions.{Action}
use tabgrant.Protocol.Decision.{PolicyDecision, Outcome, allow, allow_prepare, deny}
use tabgrant.Policy.Engine.{evaluate_policy_or_throw, evaluate_policy_or_throw-some}
use tabgrant.Policy.Permits.{Permitted}
use tabgrant.Policy.EngineLaws.{evaluate_policy-allow_iff}
use tabgrant.Broker.Constants.{
  ImplementedScope, page_a11y_read, page_highlight, page_scroll, page_navigate_same_origin,
  data_egress_model, lease_command_window_ms, lease_max_in_flight, lease_commands_per_window,
}
use tabgrant.Broker.Records.{
  Lease, ConnectionContext, BrowserConnection, BrokerState, BrokerError, rpc_error, Result, ok, err,
  then_do, throw_if, lease_has, browser_has, includes_scope, audit,
}
use tabgrant.Broker.Commands.{
  Command, snapshot, highlight, scroll_by, navigate_to, action_for_command, policy_request,
  authorize_command, is_allow, follow_decision, open_window, reserve_one, reserve_command,
  audit_and_rethrow, check_destination, check_scopes, Forwarded, start_command, begin_command,
}
use tabgrant.Broker.Inversion.{then_do-ok, throw_if-then}
use tabgrant.Broker.Access.{IsOwned, IsLive, active_lease-IsOwned}

-- The scopes that a command needs.
pub command_scopes : Command → List ImplementedScope
command_scopes (snapshot n) = page_a11y_read ∷ data_egress_model ∷ []
command_scopes (highlight r e) = page_highlight ∷ []
command_scopes (scroll_by d) = page_scroll ∷ []
command_scopes (navigate_to a) = page_navigate_same_origin ∷ []

pub is_navigation : Command → Bool
is_navigation (navigate_to a) = true
is_navigation _ = false

-- What is sent is the command that was asked for, unless it is a navigation, which goes to a parsed HTTP
-- address of the lease's own origin, with nothing left of the text but its normal form.
pub data Sends (p : Platform) (l : Lease) : Command → Command → Type 0 where
  as_asked : (c : Command) → is_navigation c ≡ false → Sends p l c c
  to_own_origin :
      (address : String) (u : Url)
      → p.new_url address ≡ some u
      → u.origin ≡ l.origin
      → http_url u ≡ true
      → Sends p l (navigate_to address) (navigate_to u.href)

-- The policy engine allows the command's action; a command without one has its scope.
pub data PolicyAllows (p : Platform) (secret : String) (now : ℕ) (l : Lease) (c : Command)
    : Type 0 where
  by_scope :
      action_for_command c ≡ none
      → includes_scope l.scopes page_highlight ≡ true
      → PolicyAllows p secret now l c
  by_policy :
      (a : Action)
      → action_for_command c ≡ some a
      → Permitted p (policy_request p secret now l a)
      → PolicyAllows p secret now l c

-- The command is one more in the window of the lease, or the first in a window that opens now.
pub data InWindow (now : ℕ) (l after : Lease) : Type 0 where
  same_window :
      now < l.command_window_started_at + lease_command_window_ms
      → after.command_window_started_at ≡ l.command_window_started_at
      → after.commands_in_window ≡ l.commands_in_window + 1
      → InWindow now l after
  new_window :
      l.command_window_started_at + lease_command_window_ms ≤ now
      → after.command_window_started_at ≡ now
      → after.commands_in_window ≡ 1
      → InWindow now l after

-- The lease before and after a command has been counted.
pub record Counted (now : ℕ) (l after : Lease) : Type 0 where
  pub one_more : after.in_flight ≡ l.in_flight + 1
  pub few : after.in_flight ≤ lease_max_in_flight
  pub one_use : after.policy_lease.remaining_uses + 1 ≡ l.policy_lease.remaining_uses
  pub used : (after.last_used_at ≡ now) × (after.policy_lease.last_used_at ≡ now)
  pub paced : InWindow now l after
  pub slow : after.commands_in_window ≤ lease_commands_per_window

-- The connection of a sent command, and what it takes from its lease, from the state `s` to `t`.
pub record Started (p : Platform) (secret : String) (now : ℕ) (l : Lease) (s t : BrokerState)
    (sent : Forwarded) : Type 0 where
  pub browser : BrowserConnection
  pub connected : find (browser_has l.browser_instance_id) s.browsers ≡ some browser
  pub addressed : sent.connection ≡ browser.connection
  pub allows : PolicyAllows p secret now l sent.command
  pub after : Lease
  pub stored : find (lease_has l.lease_id) t.leases ≡ some after
  pub counted : Counted now l after

-- The lease that a sent command runs on.
pub record Authorised (p : Platform) (secret : String) (now : ℕ) (context : ConnectionContext)
    (id : String) (c : Command) (s t : BrokerState) (sent : Forwarded) : Type 0 where
  pub lease : Lease
  pub owned : IsOwned context id s lease
  pub live : IsLive now lease
  pub scoped : All (λ x. includes_scope lease.scopes x ≡ true) (command_scopes c)
  pub sends : Sends p lease c sent.command
  pub started : Started p secret now lease s t sent

check_destination-Sends :
    (p : Platform) (address : String) (l : Lease) (s t : BrokerState) (d : Command)
    → check_destination p (p.new_url address) l s ≡ (t, ok d)
    → (t ≡ s) × Sends p l (navigate_to address) d
check_destination-Sends p address l s t d h = elim (Option-cases (p.new_url address)) [
  | inl bad ↦ absurd (cc (rw bad at h))
  | inr (u, parsed) ↦ elim (Bool-cases (not (u.origin === l.origin) || not (http_url u))) [
    | inl off ↦ absurd (cc (rw (parsed, off) at h))
    | inr fine ↦
        let h' = rw (parsed, fine) at h in
        let same : navigate_to u.href ≡ d = cc in
        let own : u.origin ≡ l.origin = ground (arith, ===_iff u.origin l.origin) in
        (cc, rw (← same) (to_own_origin address u parsed own (ground arith)))
  ]
]

Sends-of_same :
    (p : Platform) (l : Lease) (c d : Command) → is_navigation c ≡ false → c ≡ d → Sends p l c d
Sends-of_same p l c d stays same = rw (← same) (as_asked c stays)

check_scopes-Sends :
    (p : Platform) (l : Lease) (c d : Command) (s t : BrokerState)
    → check_scopes p l c s ≡ (t, ok d)
    → (t ≡ s) × All (λ x. includes_scope l.scopes x ≡ true) (command_scopes c) × Sends p l c d
unfolding check_scopes command_scopes is_navigation
check_scopes-Sends p l (snapshot n) d s t h =
    let (e1, h1) = throw_if-then _ _ _ h in
    let (e2, h2) = throw_if-then _ _ _ h1 in
    let same : snapshot n ≡ d = cc in
    (cc, (ground arith, (ground arith, tt)), Sends-of_same p l _ d refl same)
check_scopes-Sends p l (highlight r e) d s t h =
    let (e1, h1) = throw_if-then _ _ _ h in
    let same : highlight r e ≡ d = cc in (cc, (ground arith, tt), Sends-of_same p l _ d refl same)
check_scopes-Sends p l (scroll_by n) d s t h =
    let (e1, h1) = throw_if-then _ _ _ h in
    let same : scroll_by n ≡ d = cc in (cc, (ground arith, tt), Sends-of_same p l _ d refl same)
check_scopes-Sends p l (navigate_to a) d s t h =
    let (e1, h1) = throw_if-then _ _ _ h in
    let (same, sends) = check_destination-Sends p a l s t d h1 in (same, (ground arith, tt), sends)

throw_if-ok :
    (b : Bool) (e : BrokerError) (s t : BrokerState) (u : Unit {0})
    → throw_if b e s ≡ (t, ok u)
    → (t ≡ s) × (b ≡ false)
unfolding throw_if
throw_if-ok true e s t u h = absurd (cc)
throw_if-ok false e s t u h = (cc, refl)

is_allow_lem : (o : Outcome) → not (is_allow o) ≡ false → o ≡ allow
is_allow_lem allow e = refl
is_allow_lem allow_prepare e = absurd (cc)
is_allow_lem deny e = absurd (cc)

follow_decision-ok :
    (o : Option PolicyDecision) (s t : BrokerState) (u : Unit {0})
    → follow_decision o s ≡ (t, ok u)
    → (t ≡ s) × ((d : PolicyDecision) × ((o ≡ some d) × (d.outcome ≡ allow)))
follow_decision-ok none s t u h = absurd (cc)
follow_decision-ok (some d) s t u h =
    let (same, e) = throw_if-ok _ _ s t u h in (same, (d, (refl, is_allow_lem d.outcome e)))

authorize_command-PolicyAllows :
    (p : Platform) (secret : String) (now : ℕ) (l : Lease) (c : Command) (s t : BrokerState)
    (u : Unit {0})
    → authorize_command p secret now l c s ≡ (t, ok u)
    → (t ≡ s) × PolicyAllows p secret now l c
unfolding authorize_command
authorize_command-PolicyAllows p secret now l c s t u h =
    elim (Option-cases (action_for_command c)) [
      | inl plain ↦
          let is : authorize_command p secret now l c s
              ≡ throw_if (not (includes_scope l.scopes page_highlight)) (rpc_error "SCOPE_REQUIRED")
                  s =
            rw (plain, authorize_command) refl in
          let (same, e) = throw_if-ok _ _ s t u (sym is ∙ h) in
          (same, by_scope plain (ground arith))
      | inr (a, known) ↦
          let q = policy_request p secret now l a in
          let is : authorize_command p secret now l c s
              ≡ follow_decision (evaluate_policy_or_throw p q) s =
            rw (known, authorize_command) refl in
          let (same, (d, (decided, allows))) = follow_decision-ok _ s t u (sym is ∙ h) in
          let same_outcome = ap (λ x. x.outcome) (evaluate_policy_or_throw-some p q d decided) in
          (same, by_policy a known ((evaluate_policy-allow_iff p q).0 (same_outcome ∙ allows)))
    ]

reserve_command-ok :
    (now : ℕ) (l : Lease) (s t : BrokerState) (u : Unit {0})
    → reserve_command now l s ≡ (t, ok u)
    → (l.in_flight < lease_max_in_flight)
      × ((open_window now l).commands_in_window < lease_commands_per_window)
      × (0 < l.policy_lease.remaining_uses)
      × (t.leases
          ≡ update
              (lease_has l.lease_id)
              (reserve_one now)
              (update (lease_has l.lease_id) (open_window now) s.leases))
unfolding reserve_command
reserve_command-ok now l s t u h =
    let opened = open_window now l in
    elim (Bool-cases (leb lease_max_in_flight l.in_flight)) [
      | inl busy ↦ absurd (cc (rw busy at h))
      | inr idle ↦ elim (Bool-cases (leb lease_commands_per_window opened.commands_in_window)) [
        | inl fast ↦ absurd (cc (rw (idle, fast) at h))
        | inr slow ↦ elim (Bool-cases (opened.policy_lease.remaining_uses == 0)) [
          | inl spent ↦ absurd (cc (rw (idle, slow, spent) at h))
          | inr left ↦
              let h' = rw (idle, slow, left) at h in
              let uses : opened.policy_lease.remaining_uses ≡ l.policy_lease.remaining_uses =
                ground arith in
              (ground arith, ground arith, ground arith, cc)
        ]
      ]
    ]

Counted-reserve :
    (now : ℕ) (l : Lease)
    → l.in_flight < lease_max_in_flight
    → (open_window now l).commands_in_window < lease_commands_per_window
    → 0 < l.policy_lease.remaining_uses
    → Counted now l (reserve_one now (open_window now l))
Counted-reserve now l idle slow left =
    elim (Bool-cases (leb lease_command_window_ms (now - l.command_window_started_at))) [
      | inl over ↦ rw over (record {
        one_more = refl;
        few = omega arith;
        one_use = omega arith;
        used = (refl, refl);
        paced = new_window (ground arith) refl refl;
        slow = omega arith;
      })
      | inr current ↦
          let slow' = rw current at slow in
          rw current (record {
            one_more = refl;
            few = omega arith;
            one_use = omega arith;
            used = (refl, refl);
            paced = same_window (ground arith) refl refl;
            slow = omega arith;
          })
    ]

reserve-stored :
    (now : ℕ) (l : Lease) (s t : BrokerState)
    → find (lease_has l.lease_id) s.leases ≡ some l
    → t.leases
      ≡ update
          (lease_has l.lease_id)
          (reserve_one now)
          (update (lease_has l.lease_id) (open_window now) s.leases)
    → find (lease_has l.lease_id) t.leases ≡ some (reserve_one now (open_window now l))
reserve-stored now l s t held counted =
    let has = lease_has l.lease_id in
    let opened = find-update_self has (open_window now) (λ a. ground arith) s.leases l held in
    ap (find has) counted
    ∙ find-update_self has (reserve_one now) (λ a. refl) (update has (open_window now) s.leases)
        (open_window now l) opened

audit_and_rethrow-ok :
    {A : Type 0} (audit_ok : Bool) (c : Command) (l : Lease) (r : BrokerState × Result A)
    (t : BrokerState) (a : A)
    → audit_and_rethrow audit_ok c l r ≡ (t, ok a)
    → r ≡ (t, ok a)
unfolding then_do audit
audit_and_rethrow-ok audit_ok c l (s, ok b) t a h = h
audit_and_rethrow-ok true c l (s, err e) t a h = absurd (cc)
audit_and_rethrow-ok false c l (s, err e) t a h = absurd (cc)

start_command-Started :
    (p : Platform) (secret : String) (now : ℕ) (audit_ok : Bool) (l : Lease) (d : Command)
    (s t : BrokerState) (sent : Forwarded)
    → find (lease_has l.lease_id) s.leases ≡ some l
    → start_command p secret now audit_ok l d s ≡ (t, ok sent)
    → (sent.command ≡ d) × Started p secret now l s t sent
unfolding start_command
start_command-Started p secret now audit_ok l d s t sent held h =
    elim (Option-cases (find (browser_has l.browser_instance_id) s.browsers)) [
      | inl gone ↦ absurd (cc (rw (start_command, gone) at h))
      | inr (b, there) ↦
          let (u, s3, e3, h4) = then_do-ok (rw (start_command, there) at h) in
          let (v, s4, e4, h5) = then_do-ok (audit_and_rethrow-ok audit_ok d l _ s3 u e3) in
          let (same4, allows) = authorize_command-PolicyAllows p secret now l d s s4 v e4 in
          let (idle, slow, left, counted) = reserve_command-ok now l s4 s3 u h5 in
          let forwarded : record { connection = b.connection; lease_id = l.lease_id; command = d }
              ≡ sent =
            cc in
          let is : d ≡ sent.command = ap (λ f. Forwarded.command f) forwarded in
          (
            sym is,
            record {
              browser = b;
              connected = there;
              addressed = sym (ap (λ f. Forwarded.connection f) forwarded);
              allows = rw is at allows;
              after = reserve_one now (open_window now l);
              stored =
                  let end : t ≡ s3 = cc in
                  reserve-stored now l s t held (rw (end, ← same4) counted);
              counted = Counted-reserve now l idle slow left;
            },
          )
    ]

Authorised-of :
    (p : Platform) (secret : String) (now : ℕ) (context : ConnectionContext) (id : String)
    (c d : Command) (s s1 s2 t : BrokerState) (sent : Forwarded) (l : Lease)
    → (s1 ≡ s) × IsOwned context id s l × IsLive now l
    → (s2 ≡ s1) × All (λ x. includes_scope l.scopes x ≡ true) (command_scopes c) × Sends p l c d
    → (sent.command ≡ d) × Started p secret now l s2 t sent
    → Authorised p secret now context id c s t sent
Authorised-of p secret now context id c d s s1 s2 t sent l a b k = record {
  lease = l;
  owned = a.1;
  live = a.2;
  scoped = b.1;
  sends = rw k.0 b.2;
  started = subst (λ x. Started p secret now l x t sent) (b.0 ∙ a.0) k.1;
}

-- The map holds a lease that a connection owns under the lease's own identifier.
held_by_own_id :
    (context : ConnectionContext) (id : String) (s : BrokerState) (l : Lease)
    → IsOwned context id s l
    → find (lease_has l.lease_id) s.leases ≡ some l
held_by_own_id context id s l o =
    let same = (===_iff l.lease_id id).0 (find-passes (lease_has id) s.leases l o.held) in
    ap (λ i. find (lease_has i) s.leases) same ∙ o.held

-- A command that is sent to a browser was asked for by the session that owns the lease; the lease is
-- live and has every scope that the command needs; what is sent is the command itself, or for a navigation the
-- normal form of a parsed HTTP address of the lease's origin; the policy engine permits the command's action for this lease, or the command
-- is a highlight, which the engine is not asked about; it goes to the connection of the lease's own
-- browser; and afterwards the map's lease has one command more in flight, at most 2, one use
-- less, was used now, and has one command more in its window of a minute, or is in a window that opened now with
-- one, at most 30.
pub begin_command-Authorised :
    (p : Platform) (secret : String) (now : ℕ) (audit_ok : Bool) (context : ConnectionContext)
    (id : String) (c : Command) (s t : BrokerState) (sent : Forwarded)
    → begin_command p secret now audit_ok context id c s ≡ (t, ok sent)
    → Authorised p secret now context id c s t sent
unfolding begin_command
begin_command-Authorised p secret now audit_ok context id c s t sent h =
    let (_, h1) = throw_if-then _ _ _ h in
    let (l, s1, e1, h2) = then_do-ok h1 in
    let (d, s2, e2, h3) = then_do-ok h2 in
    let lively = active_lease-IsOwned now context id s e1 in
    let checked = check_scopes-Sends p l c d s1 s2 e2 in
    let held = held_by_own_id context id s l lively.1 in
    let held2 = ap (λ x. find (lease_has l.lease_id) x.leases) (checked.0 ∙ lively.0) ∙ held in
    Authorised-of p secret now context id c d s s1 s2 t sent l lively checked
      (start_command-Started p secret now audit_ok l d s2 t sent held2 h3)
