-- ===== src/Broker/Bounds/Monad.antt =====
-- Tame actions compose as the code of apps/broker/src/broker-state.ts sequences them.
use tabgrant.Common.{Bool, true, false, Option, none, some, ◌≡◌, refl, Option-cases, inl, inr, find}
use tabgrant.Broker.Records.{
  BrokerState, Result, ok, err, M, then_do, throw_if, require, BrokerError, ConnectionContext,
  entry_has, audit, AuditEvent, return,
}
use tabgrant.Broker.Lifecycle.{session_of}
use tabgrant.Broker.Bounds.Tame.{
  IsBounded, Tame, Tame-refl, Tame-trans, Tame-of_same, Tame-IsBounded,
}

pub record TameTo {A : Type 0} (s : BrokerState) (r : BrokerState × Result A) : Type 0 where
  pub tame : Tame s r.0

pub record BoundedTo {A : Type 0} (r : BrokerState × Result A) : Type 0 where
  pub bounded : IsBounded r.0

pub TameTo-of :
    {A : Type 0} {s : BrokerState} {r : BrokerState × Result A} → Tame s r.0 → TameTo s r
TameTo-of h = record { tame = h }

pub bind-TameTo :
    {A B : Type 0} {s : BrokerState} {r : BrokerState × Result A} {f : A → M B}
    → TameTo s r
    → ((a : A) (t : BrokerState) → TameTo t (f a t))
    → TameTo s (then_do r f)
unfolding then_do
bind-TameTo {s} {r = (t, ok a)} {f} h k = record {
  tame = Tame-trans s t (f a t).0 h.tame (k a t).tame;
}
bind-TameTo {r = (t, err e)} h k = record { tame = h.tame }

-- A bounded first part, and a second part that keeps the bounds after what the first returned.
pub bind-BoundedTo :
    {A B : Type 0} {r : BrokerState × Result A} {f : A → M B}
    → BoundedTo r
    → ((a : A) (t : BrokerState) → r ≡ (t, ok a) → IsBounded t → BoundedTo (f a t))
    → BoundedTo (then_do r f)
unfolding then_do
bind-BoundedTo {r = (t, ok a)} h k = k a t refl h.bounded
bind-BoundedTo {r = (t, err e)} h k = record { bounded = h.bounded }

pub TameTo-BoundedTo :
    {A : Type 0} (s : BrokerState) (r : BrokerState × Result A)
    → TameTo s r
    → IsBounded s
    → BoundedTo r
TameTo-BoundedTo s r h b = record { bounded = Tame-IsBounded s r.0 h.tame b }

pub return-TameTo : {A : Type 0} (a : A) (s : BrokerState) → TameTo s (return a s)
return-TameTo a s = record { tame = Tame-refl s }

pub throw_if-TameTo : (b : Bool) (e : BrokerError) (s : BrokerState) → TameTo s (throw_if b e s)
unfolding throw_if
throw_if-TameTo true e s = record { tame = Tame-refl s }
throw_if-TameTo false e s = record { tame = Tame-refl s }

pub require-TameTo :
    {A : Type 0} (o : Option A) (e : BrokerError) (s : BrokerState) → TameTo s (require o e s)
unfolding require
require-TameTo none e s = record { tame = Tame-refl s }
require-TameTo (some a) e s = record { tame = Tame-refl s }

pub audit-TameTo :
    (audit_ok : Bool) (e : AuditEvent) (s : BrokerState) → TameTo s (audit audit_ok e s)
unfolding audit
audit-TameTo true e s = record { tame = Tame-of_same s _ refl refl refl refl }
audit-TameTo false e s = record { tame = Tame-refl s }

pub session_of-TameTo : (c : ConnectionContext) (s : BrokerState) → TameTo s (session_of c s)
unfolding session_of
session_of-TameTo c s = elim (Option-cases (find (entry_has c.connection) s.contexts)) [
  | inl gone ↦ rw (gone, session_of) (record { tame = Tame-refl s })
  | inr (entry, there) ↦ rw (there, session_of) (record { tame = Tame-refl s })
]

-- What a returned `require` says.
pub require_lem :
    {A : Type 0} (o : Option A) (e : BrokerError) (s t : BrokerState) (a : A)
    → require o e s ≡ (t, ok a)
    → (o ≡ some a) × (t ≡ s)
unfolding require
require_lem none e s t a h = absurd (cc)
require_lem (some b) e s t a h = (cc, cc)
