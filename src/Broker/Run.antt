-- ===== src/Broker/Run.antt =====
-- The history of a `BrokerState` of apps/broker/src/broker-state.ts as a step relation. Between two
-- synchronous stretches of code any other may run, so a history is any sequence of connections
-- (`createContext`), calls (`handle` up to its answer or to the request to the browser), browser answers,
-- audit records of commands (the rest of `executeWithLease`) and ends of connections (`disconnected`).
use tabgrant.Common.{ℕ, String, Bool}
use tabgrant.Protocol.Platform.{Platform}
use tabgrant.Broker.Records.{BrokerError, BrokerState, ConnectionContext, initial_state}
use tabgrant.Broker.Lifecycle.{create_context, disconnected}
use tabgrant.Broker.Commands.{Command, BrowserResult, answer_command, record_command, fail_command}
use tabgrant.Broker.Dispatch.{Call, Inputs, handle}

module _ (p : Platform) (secret : String) where
  pub data Step : BrokerState → BrokerState → Type 0 where
    connects :
        (context : ConnectionContext) (uuid : String) (st : BrokerState)
        → Step st (create_context context uuid st)
    calls :
        (i : Inputs) (context : ConnectionContext) (c : Call) (st : BrokerState)
        → Step st (handle p secret i context c st).0
    answers :
        (now : ℕ) (lease_id : String) (c : Command) (result : BrowserResult) (st : BrokerState)
        → Step st (answer_command now lease_id c result st).0
    records :
        (now : ℕ) (audit_ok : Bool) (lease_id : String) (c : Command) (bytes : ℕ) (st : BrokerState)
        → Step st (record_command now audit_ok lease_id c bytes st).0
    fails :
        (now : ℕ) (audit_ok : Bool) (lease_id : String) (c : Command) (e : BrokerError)
        (st : BrokerState)
        → Step st (fail_command now audit_ok lease_id c e st).0
    disconnects :
        (now : ℕ) (audit_ok : Bool) (context : ConnectionContext) (st : BrokerState)
        → Step st (disconnected now audit_ok context st).0

  -- What a broker that has just started can come to.
  pub data Reachable : BrokerState → Type 0 where
    started : Reachable initial_state
    steps : (s t : BrokerState) → Reachable s → Step s t → Reachable t
