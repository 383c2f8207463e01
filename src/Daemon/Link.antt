-- ===== src/Daemon/Link.antt =====
-- apps/broker/src/daemon.ts: the state of `BrokerDaemon` that its connections share, the variables of one
-- `accept`, and the start of every request. A handler of a browser's authentication that waits for a promise
-- is a `Stage` of its connection. `witnessed` are the answers that came from outside, newest first.
use tabgrant.Common.{
  ℕ, String, Bool, true, false, ◌||◌, List, [], ◌∷◌, Option, none, some, leb, if◌then◌else◌,
  is_some,
}
use tabgrant.Protocol.Platform.{Platform}
use tabgrant.Broker.Records.{Role, agent, browser, ConnectionContext, BrokerState, initial_state}
use tabgrant.Broker.Lifecycle.{create_context}
use tabgrant.Wire.Peer.{PeerError, rpc_fault, other_error}
use tabgrant.Auth.Hello.{AuthHello, Verified, accepted, rejected, verify_auth_hello}
use tabgrant.Auth.Replay.{used_nonces}
use tabgrant.Auth.Browser.{BrowserAuthStart, BrowserAuthChallenge}

-- A lookup found the key, a person approved the pairing, or a signature of a challenge was right at a time.
pub data Witness : Type 0 where
  paired approved : BrowserAuthStart → Witness
  proved : BrowserAuthChallenge → String → ℕ → Witness

pub record Daemon : Type 0 where
  pub due : List (String × ℕ)
  pub prompt_active : Bool
  pub last_prompt_at : Option ℕ
  pub global_attempts : List ℕ
  pub broker : BrokerState
  pub witnessed : List Witness

abbrev pub new_daemon : Daemon
new_daemon = record {
  due = [];
  prompt_active = false;
  last_prompt_at = none;
  global_attempts = [];
  broker = initial_state;
  witnessed = [];
}

-- The context of `createContext`; `context_id` stands for the object.
pub record Session : Type 0 where
  pub auth : AuthHello
  pub context_id : ℕ

-- Where a browser's authentication waits. `leaving` has whether `disconnected` resolves.
pub data Stage : Type 0 where
  idle : Stage
  looking_up prompting : BrowserAuthStart → Stage
  persisting : BrowserAuthChallenge → Stage
  leaving : BrowserAuthChallenge → Bool → Stage

pub record Link : Type 0 where
  pub session : Option Session
  pub challenge : Option BrowserAuthChallenge
  pub pairs_key : Bool
  pub transition_active : Bool
  pub attempts : List ℕ
  pub stage : Stage

abbrev pub new_link : Link
new_link = record {
  session = none;
  challenge = none;
  pairs_key = false;
  transition_active = false;
  attempts = [];
  stage = idle;
}

pub data Reply : Type 0 where
  authenticated : Role → Reply
  not_paired : Reply
  challenged : BrowserAuthChallenge → Reply

-- What a handler comes to: an answer, an exception, a promise that it waits for, or the broker's `handle`.
pub data Outcome : Type 0 where
  replied : Reply → Outcome
  refused : PeerError → Outcome
  waits : Outcome
  forwarded : ConnectionContext → Outcome

pub record After : Type 0 where
  pub daemon : Daemon
  pub link : Link
  pub outcome : Outcome

abbrev pub refuse : String → String → Daemon → Link → After
refuse code message d l = record {
  daemon = d;
  link = l;
  outcome = refused (rpc_fault (record { code = code; message = message }));
}

abbrev pub context_of : Session → ConnectionContext
context_of s = record {
  connection = s.context_id;
  role = s.auth.role;
  client_id = s.auth.client_id;
  task_id = s.auth.task_id;
}

abbrev authentication_failed : Daemon → Link → After
authentication_failed = refuse "AUTHENTICATION_FAILED" "Local broker authentication failed."

abbrev pub greet : String → ℕ → String → ℕ → AuthHello → Daemon → Link → Verified → After
greet nonce context_id uuid now h d l (rejected e) = authentication_failed d l
greet nonce context_id uuid now h d l (accepted auth used) =
    let s : Session = record { auth = auth; context_id = context_id } in
    record {
      daemon = record d {
        due = (nonce, now) ∷ d.due;
        broker = create_context (context_of s) uuid d.broker;
      };
      link = record l { session = some s };
      outcome = replied (authenticated auth.role);
    }

-- `session.hello`: `none` has not the shape of a hello.
unfoldable pub session_hello :
    Platform → String → ℕ → String → ℕ → Option AuthHello → Daemon → Link → After
session_hello p secret context_id uuid now candidate d l =
    if is_some l.session
    then refuse "ALREADY_AUTHENTICATED" "Connection is already authenticated." d l
    else elim candidate [
      | none ↦ authentication_failed d l
      | some h ↦
          greet h.nonce context_id uuid now h d l
            (verify_auth_hello p secret now (used_nonces d.due) h)
    ]

-- `challenge.expiresAt <= now`
abbrev pub is_expired : ℕ → Option BrowserAuthChallenge → Bool
is_expired now none = false
is_expired now (some c) = leb c.expires_at now

-- `clearExpiredBrowserChallenge`
abbrev pub clear_expired : ℕ → Link → Link
clear_expired now l =
    if is_expired now l.challenge then record l { challenge = none; pairs_key = false } else l

-- The condition of `reserveBrowserAuthTransition`.
abbrev pub is_occupied : Link → Bool
is_occupied l = l.transition_active || is_some l.challenge

abbrev pub busy : Daemon → Link → After
busy =
    refuse "BROWSER_AUTHENTICATION_BUSY"
      "Another browser authentication operation is active on this connection."

-- `requireAgentContext`
abbrev pub is_agent : Session → Bool
is_agent s = elim s.auth.role [ agent ↦ true | browser ↦ false ]

abbrev pub not_agent : Daemon → Link → After
not_agent = refuse "ALREADY_AUTHENTICATED" "Browser connection is already active."

-- A `ZodError`, or another exception that is no `BrokerRpcError`.
abbrev pub throw_other : Daemon → Link → After
throw_other d l = record { daemon = d; link = l; outcome = refused other_error }

-- The `finally` block.
abbrev pub release : Link → Link
release l = record l { transition_active = false; stage = idle }
