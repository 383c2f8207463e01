-- ===== src/Broker/Inversion.antt =====
-- What an action of apps/broker/src/broker-state.ts that returned has done: inversion of the sequencing
-- and of the primitive actions.
use tabgrant.Common.{
  ◌≡◌, refl, Bool, true, false, Option, none, some, ◌∷◌, find, inl, inr, String, Option-cases,
}
use tabgrant.Broker.Records.{
  BrokerState, Result, ok, err, M, then_do, throw_if, require, audit, AuditEvent, BrokerError,
  rpc_error, ConnectionContext, ContextEntry, entry_has,
}
use tabgrant.Broker.Lifecycle.{session_of}

-- A returned sequence has returned in both parts.
pub then_do-ok :
    {A B : Type 0} {r : BrokerState × Result A} {f : A → M B} {t : BrokerState} {b : B}
    → then_do r f ≡ (t, ok b)
    → (a : A) × (s : BrokerState) × (r ≡ (s, ok a)) × (f a s ≡ (t, ok b))
unfolding then_do
then_do-ok {r = (s, ok a)} h = (a, s, refl, h)
then_do-ok {r = (s, err e)} h = absurd (cc)

module _ {B : Type 0} {s t : BrokerState} {x : B} where
  pub pure-then :
      {A : Type 0} (a : A) (f : A → M B) → then_do (s, ok a) f ≡ (t, ok x) → f a s ≡ (t, ok x)
  unfolding then_do
  pure-then a f h = h

  pub throw_if-then :
      (b : Bool) (e : BrokerError) (f : Unit {0} → M B)
      → then_do (throw_if b e s) f ≡ (t, ok x)
      → (b ≡ false) × (f tt s ≡ (t, ok x))
  unfolding then_do throw_if
  throw_if-then true e f h = absurd (cc)
  throw_if-then false e f h = (refl, h)

  pub require-then :
      {A : Type 0} (o : Option A) (e : BrokerError) (f : A → M B)
      → then_do (require o e s) f ≡ (t, ok x)
      → (a : A) × (o ≡ some a) × (f a s ≡ (t, ok x))
  unfolding then_do require
  require-then none e f h = absurd (cc)
  require-then (some a) e f h = (a, refl, h)

  -- An audit record that was written is only logged.
  pub audit-then :
      (b : Bool) (e : AuditEvent) (f : Unit {0} → M B)
      → then_do (audit b e s) f ≡ (t, ok x)
      → f tt (record s { audited = e ∷ s.audited }) ≡ (t, ok x)
  unfolding then_do audit
  audit-then true e f h = h
  audit-then false e f h = absurd (cc)

-- The session of a connection that has one.
pub session_of-ok :
    (context : ConnectionContext) (s t : BrokerState) (session : String)
    → session_of context s ≡ (t, ok session)
    → (t ≡ s)
      × ((entry : ContextEntry) × (find (entry_has context.connection) s.contexts ≡ some entry)
          × (session ≡ entry.session_id))
unfolding session_of
session_of-ok context s t session h =
    elim (Option-cases (find (entry_has context.connection) s.contexts)) [
      | inl gone ↦
          let is : session_of context s ≡ (s, err (rpc_error "INVALID_SESSION")) =
            rw (gone, session_of) refl in
          absurd (cc)
      | inr (entry, there) ↦
          let is : session_of context s ≡ (s, ok entry.session_id) = rw (there, session_of) refl in
          (cc, (entry, there, cc))
    ]
