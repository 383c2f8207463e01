-- ===== src/Broker/Records.antt =====
-- apps/broker/src/broker-state.ts: the records of `BrokerState`. A `Map` is the list of its values in
-- insertion order. The weak maps over connection contexts and the context's own mutable field are one
-- table of entries, by the number that stands for the context object. `detached` holds the lease objects
-- that left the map and that a running command may still hold. Messages to peers and audit records are
-- logs, newest first.
use tabgrant.Common.{
  ℕ, String, Bool, true, false, List, [], ◌∷◌, Option, none, some, ◌===◌, ◌==◌, any, if◌then◌else◌,
}
use tabgrant.Protocol.Access.{Capability, PolicyLease}
use tabgrant.Broker.Constants.{ImplementedScope, same_scope}

pub data AccessStatus : Type 0 where
  pending granted denied expired revoked : AccessStatus

abbrev pub is_pending : AccessStatus → Bool
is_pending pending = true
is_pending _ = false

pub record AccessRequest : Type 0 where
  pub request_id : String
  pub session_id : String
  pub client_id : String
  pub task_id : String
  pub scopes : List ImplementedScope
  pub reason : String
  pub declared_model_provider : Option String
  pub created_at : ℕ
  pub expires_at : ℕ
  pub status : AccessStatus
  pub terminal_at : Option ℕ
  pub lease_id : Option String

pub record FixedWindow : Type 0 where
  pub started_at : ℕ
  pub count : ℕ

-- `reserved_bytes` is no field of the source: the `reservedEgressBytes` that running commands hold on their stacks.
pub record Lease : Type 0 where
  pub lease_id : String
  pub request_id : String
  pub session_id : String
  pub client_id : String
  pub task_id : String
  pub browser_instance_id : String
  pub tab_id : ℕ
  pub document_id : String
  pub origin : String
  pub url : String
  pub title : String
  pub scopes : List ImplementedScope
  pub declared_model_provider : Option String
  pub capability : Capability
  pub policy_lease : PolicyLease
  pub issued_at : ℕ
  pub expires_at : ℕ
  pub last_used_at : ℕ
  pub in_flight : ℕ
  pub command_window_started_at : ℕ
  pub commands_in_window : ℕ
  pub remaining_egress_bytes : ℕ
  pub reserved_bytes : List ℕ
  pub revoked_at : Option ℕ
  pub revoke_reason : Option String

pub data Role : Type 0 where
  agent browser : Role

-- A connection with the fields of its `AuthHello` that the state reads.
pub record ConnectionContext : Type 0 where
  pub connection : ℕ
  pub role : Role
  pub client_id : String
  pub task_id : String

pub record ContextEntry : Type 0 where
  pub connection : ℕ
  pub session_id : String
  pub browser_instance_id : Option String
  pub request_window : Option FixedWindow

pub record BrowserConnection : Type 0 where
  pub browser_instance_id : String
  pub connection : ℕ
  pub browser_name : String
  pub browser_version : String
  pub extension_id : String

pub record PublicRequest : Type 0 where
  pub request_id : String
  pub client_id : String
  pub task_id : String
  pub scopes : List ImplementedScope
  pub reason : String
  pub declared_model_provider : Option String
  pub status : AccessStatus
  pub expires_at : ℕ
  pub lease_id : Option String

pub data PeerEvent : Type 0 where
  access_requested : PublicRequest → PeerEvent
  access_revoked : String → String → PeerEvent

pub data AuditOutcome : Type 0 where
  allowed refused info : AuditOutcome

pub record AuditEvent : Type 0 where
  pub event : String
  pub outcome : AuditOutcome
  pub client_id : Option String
  pub task_id : Option String
  pub lease_id : Option String
  pub origin : Option String
  pub method : Option String
  pub reason_code : Option String

pub record BrokerState : Type 0 where
  pub access_requests : List AccessRequest
  pub leases : List Lease
  pub detached : List Lease
  pub browsers : List BrowserConnection
  pub contexts : List ContextEntry
  pub global_request_window : FixedWindow
  pub next_maintenance_at : ℕ
  pub sent : List (ℕ × PeerEvent)
  pub audited : List AuditEvent

abbrev pub initial_state : BrokerState
initial_state = record {
  access_requests = [];
  leases = [];
  detached = [];
  browsers = [];
  contexts = [];
  global_request_window = record { started_at = 0; count = 0 };
  next_maintenance_at = 0;
  sent = [];
  audited = [];
}

-- `BrokerRpcError` with its code, a `ZodError`, or another error.
pub data BrokerError : Type 0 where
  rpc_error : String → BrokerError
  invalid_params internal_failure : BrokerError

pub data Result {ℓ} (A : Type ℓ) : Type ℓ where
  ok : A → Result A
  err : BrokerError → Result A

-- An exception leaves what was written before it.
abbrev pub M : Type 0 → Type 0
M A = BrokerState → BrokerState × Result A

unfoldable pub then_do :
    {A B : Type 0} → BrokerState × Result A → (A → M B) → BrokerState × Result B
then_do (st, ok a) f = f a st
then_do (st, err e) f = (st, err e)

infixl 5 ◌>>=◌ ◌>>◌
abbrev pub ◌>>=◌ : {A B : Type 0} → M A → (A → M B) → M B
◌>>=◌ m f st = then_do (m st) f

abbrev pub ◌>>◌ : {B : Type 0} → M (Unit {0}) → M B → M B
◌>>◌ m k = m >>= λ _. k

abbrev pub return : {A : Type 0} → A → M A
return a st = (st, ok a)

abbrev pub throw : {A : Type 0} → BrokerError → M A
throw e st = (st, err e)

-- `if (test) throw error;`
unfoldable pub throw_if : Bool → BrokerError → M (Unit {0})
throw_if true e st = (st, err e)
throw_if false e st = (st, ok tt)

abbrev pub get_state : M BrokerState
get_state st = (st, ok st)

abbrev pub modify : (BrokerState → BrokerState) → M (Unit {0})
modify f st = (f st, ok tt)

-- `value` of an optional field, or the error that its absence raises.
unfoldable pub require : {A : Type 0} → Option A → BrokerError → M A
require none e st = (st, err e)
require (some a) e st = (st, ok a)

abbrev pub request_has : String → AccessRequest → Bool
request_has id r = r.request_id === id

abbrev pub lease_has : String → Lease → Bool
lease_has id l = l.lease_id === id

abbrev pub browser_has : String → BrowserConnection → Bool
browser_has id b = b.browser_instance_id === id

abbrev pub entry_has : ℕ → ContextEntry → Bool
entry_has n e = e.connection == n

-- `scopes.includes(scope)`
abbrev pub includes_scope : List ImplementedScope → ImplementedScope → Bool
includes_scope scopes scope = any (λ s. same_scope s scope) scopes

-- `[...new Set(scopes)]` keeps the first of each.
abbrev pub drop_scope : ImplementedScope → List ImplementedScope → List ImplementedScope
drop_scope scope [] = []
drop_scope scope (s ∷ rest) =
    let later = drop_scope scope rest in if same_scope s scope then later else s ∷ later

abbrev pub unique_scopes : List ImplementedScope → List ImplementedScope
unique_scopes [] = []
unique_scopes (s ∷ rest) = s ∷ drop_scope s (unique_scopes rest)

-- An audit record about a request's or a lease's client and task.
abbrev pub audit_event : String → AuditOutcome → AuditEvent
audit_event event outcome = record {
  event = event;
  outcome = outcome;
  client_id = none;
  task_id = none;
  lease_id = none;
  origin = none;
  method = none;
  reason_code = none;
}

-- `await this.audit.record(event)`: the write succeeds or rejects.
unfoldable pub audit : Bool → AuditEvent → M (Unit {0})
audit true event st = (record st { audited = event ∷ st.audited }, ok tt)
audit false event st = (st, err internal_failure)
