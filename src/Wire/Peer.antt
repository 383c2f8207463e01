-- ===== src/Wire/Peer.antt =====
-- apps/broker/src/wire.ts: the envelopes and `RpcPeer`. The socket's writes, the settlements of promises, the
-- events handed on and the windows of admitted requests are logs, newest first. `running` are the inbound requests whose handler has not
-- returned, a promise that the source holds on its stack. `receive` is cut at the call of the handler, and
-- `answer` goes on from what it returned.
use Prim.Native.String
use tabgrant.Common.{
  ℕ, ◌+◌, ◌-◌, String, Bool, true, false, not, ◌&&◌, ◌||◌, List, [], ◌∷◌, ◌++◌, Option, none, some,
  leb, ltb, ◌===◌, ◌==◌, if◌then◌else◌, all, any, map, discard, is_some, is_none, or_else,
}
use tabgrant.Protocol.Text.{codes, length_within, is_lower, is_upper, is_digit}
use tabgrant.Protocol.Platform.{Platform}
use tabgrant.Wire.Lines.{send_line}

-- `BrokerRpcError`, and the `error` of a response.
pub record Fault : Type 0 where
  pub code : String
  pub message : String

pub data Envelope (V : Type 0) : Type 0 where
  request_envelope : String → String → V → Envelope V
  response_envelope : String → Bool → Option V → Option Fault → Envelope V
  event_envelope : String → V → Envelope V

abbrev is_name_part : ℕ → Bool
is_name_part c = is_lower c || is_digit c || c == b'.' || c == b'_' || c == b'-'

abbrev is_code_part : ℕ → Bool
is_code_part c = is_upper c || is_digit c || c == b'_'

-- A first character and at least one more.
abbrev starts_with : (ℕ → Bool) → (ℕ → Bool) → List ℕ → Bool
starts_with first more [] = false
starts_with first more (c ∷ []) = false
starts_with first more (c ∷ d ∷ cs) = first c && more d && all more cs

-- `/^[a-z][a-z0-9._-]+$/` with 1 to 96 characters.
unfoldable pub wire_name : String → Bool
unfolding length_within
wire_name s = length_within 1 96 s && starts_with is_lower is_name_part (codes s)

-- `/^[A-Z][A-Z0-9_]+$/` with 1 to 64 characters, and a message of 1 to 512.
unfoldable pub fault_schema : Fault → Bool
unfolding length_within
fault_schema f =
    length_within 1 64 f.code
    && starts_with is_upper is_code_part (codes f.code)
    && length_within 1 512 f.message

abbrev optional_fault : Option Fault → Bool
optional_fault none = true
optional_fault (some f) = fault_schema f

-- `WireEnvelopeSchema` on a value of the right shape.
unfoldable pub envelope_schema : {V : Type 0} → Platform → Envelope V → Bool
unfolding fault_schema wire_name
envelope_schema p (request_envelope id method params) = p.is_uuid id && wire_name method
envelope_schema p (response_envelope id succeeded result error) =
    p.is_uuid id && optional_fault error && (if succeeded then is_none error else is_some error)
envelope_schema p (event_envelope name payload) = wire_name name

pub data PeerError : Type 0 where
  rpc_fault : Fault → PeerError
  other_error : PeerError

pub data Settlement (V : Type 0) : Type 0 where
  resolved : Option V → Settlement V
  rejected : PeerError → Settlement V

-- A window of `admitInboundRequest` for the log: when it was opened, and the times of its admissions.
pub record Window : Type 0 where
  pub opened_at : ℕ
  pub admitted : List ℕ

pub record Peer (V : Type 0) : Type 0 where
  pub closed : Bool
  pub pending : List String
  pub inbound_requests : ℕ
  pub window_started_at : Option ℕ
  pub requests_in_window : ℕ
  pub windows : List Window
  pub running : List String
  pub written : List (Envelope V)
  pub settled : List (String × Settlement V)
  pub events : List (String × V)

abbrev pub new_peer : {V : Type 0} → Peer V
new_peer = record {
  closed = false;
  pending = [];
  inbound_requests = 0;
  window_started_at = none;
  requests_in_window = 0;
  windows = [];
  running = [];
  written = [];
  settled = [];
  events = [];
}

abbrev pub inbound_request_window_ms : ℕ
inbound_request_window_ms = 60000

abbrev pub max_inbound_requests_per_window : ℕ
max_inbound_requests_per_window = 240

abbrev pub max_inbound_requests : ℕ
max_inbound_requests = 32

abbrev pub too_large : Fault
too_large = record { code = "MESSAGE_TOO_LARGE"; message = "IPC message exceeded the 1 MiB limit." }

abbrev disconnected_fault : Fault
disconnected_fault = record { code = "BROKER_DISCONNECTED"; message = "IPC peer is closed." }

-- `pending.delete(id)`
abbrev pub forget : String → List String → List String
forget id = discard (λ x. x === id)

-- `pending.get(id)` is there.
abbrev pub waits : String → List String → Bool
waits id = any (λ x. x === id)

-- A promise of `pending` is settled, and its timer cleared.
abbrev pub settle : {V : Type 0} → String → Settlement V → Peer V → Peer V
settle id s st = record st { pending = forget id st.pending; settled = (id, s) ∷ st.settled }

-- `destroy`
unfoldable pub destroy : {V : Type 0} → PeerError → Peer V → Peer V
destroy e st = if st.closed then st else record st {
  closed = true;
  pending = [];
  settled = map (λ id. (id, rejected e)) st.pending ++ st.settled;
}

-- No window is open, the clock went back, or the window is over.
abbrev pub window_over : ℕ → Option ℕ → Bool
window_over now none = true
window_over now (some t) = ltb now t || leb inbound_request_window_ms (now - t)

-- The window after its reset.
abbrev pub fresh_window : {V : Type 0} → ℕ → Peer V → Peer V
fresh_window now st =
    if window_over now st.window_started_at
    then record st {
      window_started_at = some now;
      requests_in_window = 0;
      windows = record { opened_at = now; admitted = [] } ∷ st.windows;
    }
    else st

-- An admission is logged in the window that is open.
abbrev pub log_admission : ℕ → List Window → List Window
log_admission now [] = []
log_admission now (w ∷ ws) = record w { admitted = now ∷ w.admitted } ∷ ws

-- `admitInboundRequest`
unfoldable pub admit_inbound_request : {V : Type 0} → ℕ → Peer V → Peer V × Bool
admit_inbound_request now st =
    let opened = fresh_window now st in
    if leb max_inbound_requests_per_window opened.requests_in_window then (opened, false) else (
      record opened {
        requests_in_window = opened.requests_in_window + 1;
        windows = log_admission now opened.windows;
      },
      true,
    )

abbrev pub write : {V : Type 0} → Envelope V → Peer V → Peer V
write e st = record st { written = e ∷ st.written }

abbrev pub error_response : {V : Type 0} → String → Fault → Envelope V
error_response id f = response_envelope id false none (some f)

-- One running request fewer.
abbrev pub forget_one : String → List String → List String
forget_one id [] = []
forget_one id (x ∷ xs) = let rest = forget_one id xs in if x === id then xs else x ∷ rest

-- What a handler of a request comes to.
pub data Handled (V : Type 0) : Type 0 where
  returns : Option V → Handled V
  throws : PeerError → String → Handled V

module _ {V : Type 0} (p : Platform) (stringify : Envelope V → List ℕ) where
  -- `send`: whether the envelope is within the limit, and then it is written.
  abbrev pub fits : Envelope V → Bool
  fits e = is_some (send_line stringify e)

  -- A `send` whose exception makes `receive` reject, and that destroys the peer.
  unfoldable pub reply : Envelope V → Peer V → Peer V
  unfolding destroy
  reply e st = if fits e then write e st else destroy (rpc_fault too_large) st

  -- `request`: `some` is the error that it throws at once. `id` is a fresh UUID.
  unfoldable pub request : String → String → V → Peer V → Peer V × Option PeerError
  request id method params st =
      let waiting = record st { pending = st.pending ++ id ∷ [] } in
      let e = request_envelope id method params in
      if st.closed
      then (st, some (rpc_fault disconnected_fault))
      else if fits e
      then (write e waiting, none)
      else (waiting, some (rpc_fault too_large))

  -- The timer of a request that still waits.
  unfoldable pub time_out : String → String → Peer V → Peer V
  time_out id method st =
      if waits id st.pending
      then settle id
          (rejected (
            rpc_fault (record {
              code = "BROKER_TIMEOUT";
              message = String.◌++◌ "Timed out waiting for " (String.◌++◌ method ".");
            })))
          st
      else st

  abbrev pub settlement_of : Bool → Option V → Option Fault → Settlement V
  settlement_of true result error = resolved result
  settlement_of false result error = rejected (
      rpc_fault
        (or_else error (record { code = "BROKER_ERROR"; message = "Broker request failed." })))

  unfoldable pub receive_response : String → Bool → Option V → Option Fault → Peer V → Peer V
  receive_response id succeeded result error st =
      if waits id st.pending then settle id (settlement_of succeeded result error) st else st

  -- A request up to the call of the handler.
  unfoldable pub receive_request : ℕ → String → Peer V → Peer V
  unfolding admit_inbound_request reply
  receive_request now id st =
      let (st', admitted) = admit_inbound_request now st in
      if not admitted
      then reply
          (error_response id (record {
            code = "RATE_LIMITED";
            message = "Too many IPC requests in the fixed one-minute window.";
          }))
          st'
      else if leb max_inbound_requests st'.inbound_requests
      then reply
          (error_response id
            (record { code = "RATE_LIMITED"; message = "Too many concurrent IPC requests." }))
          st'
      else record st' { inbound_requests = st'.inbound_requests + 1; running = id ∷ st'.running }

  abbrev pub receive_checked : ℕ → Envelope V → Peer V → Peer V
  receive_checked now (request_envelope id method params) st = receive_request now id st
  receive_checked now (response_envelope id succeeded result error) st =
      receive_response id succeeded result error st
  receive_checked now (event_envelope name payload) st = record st {
    events = (name, payload) ∷ st.events;
  }

  -- `receive`: `none` has not the shape of an envelope. An exception destroys the peer.
  unfoldable pub receive : ℕ → Option (Envelope V) → Peer V → Peer V
  unfolding receive_response receive_request destroy envelope_schema
  receive now none st = destroy other_error st
  receive now (some e) st =
      if not (envelope_schema p e) then destroy other_error st else receive_checked now e st

  abbrev pub fault_of : PeerError → String → Fault
  fault_of (rpc_fault f) message = f
  fault_of other_error message = record { code = "INTERNAL_ERROR"; message = message }

  -- The `finally` block.
  abbrev pub land : String → Peer V → Peer V
  land id st = record st {
    inbound_requests = st.inbound_requests - 1;
    running = forget_one id st.running;
  }

  -- The `catch` block: an exception of its `send` leaves `receive`.
  abbrev pub answer_fault : String → Fault → Peer V → Peer V
  answer_fault id f st =
      let e = error_response id f in
      if fits e then land id (write e st) else destroy (rpc_fault too_large) (land id st)

  -- `receive` from what the handler came to.
  unfoldable pub answer : String → Handled V → Peer V → Peer V
  unfolding destroy
  answer id (returns result) st =
      let e = response_envelope id true result none in
      if fits e then land id (write e st) else answer_fault id too_large st
  answer id (throws e message) st = answer_fault id (fault_of e message) st
