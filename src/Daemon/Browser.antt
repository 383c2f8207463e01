-- ===== src/Daemon/Browser.antt =====
-- apps/broker/src/daemon.ts: `browser.auth.start`, `browser.auth.pair` and `browser.auth.complete`, each cut
-- where it awaits, and the dispatch on the method. Between its synchronous stretches the clock goes on.
use tabgrant.Common.{
  ℕ, ◌+◌, String, Bool, true, false, not, ◌∷◌, Option, none, some, ltb, ◌===◌, if◌then◌else◌,
}
use tabgrant.Protocol.Platform.{Platform}
use tabgrant.Broker.Records.{browser, ok, err, Result}
use tabgrant.Broker.Lifecycle.{create_context, disconnected}
use tabgrant.Auth.Hello.{AuthHello}
use tabgrant.Auth.Browser.{
  EcdsaVerify, BrowserAuthStart, start_schema, BrowserPairingRequest, pairing_request_schema,
  BrowserAuthComplete, complete_schema, BrowserAuthChallenge, create_browser_auth_challenge,
  verify_browser_auth_signature,
}
use tabgrant.Daemon.Attempts.{reserve}
use tabgrant.Daemon.Link.{
  paired, approved, proved, Daemon, Session, looking_up, prompting, persisting, leaving, Link,
  authenticated, not_paired, challenged, replied, waits, forwarded, After, refuse, context_of,
  session_hello, clear_expired, is_occupied, busy, is_agent, not_agent, throw_other, release,
}

-- The handler returns a new challenge, or throws where the challenge cannot be made.
abbrev pub give_challenge : Bool → Daemon → Link → Option BrowserAuthChallenge → After
give_challenge pairs d l none = throw_other d (release l)
give_challenge pairs d l (some c) = record {
  daemon = d;
  link = record (release l) { challenge = some c; pairs_key = pairs };
  outcome = replied (challenged c);
}

-- `browser.auth.start` up to the lookup.
unfoldable pub auth_start : Platform → ℕ → Session → BrowserAuthStart → Daemon → Link → After
auth_start p now s start d l =
    let cleared = clear_expired now l in
    if not (is_agent s)
    then not_agent d l
    else if not (start_schema p start)
    then throw_other d l
    else if is_occupied cleared
    then busy d cleared
    else record {
      daemon = d;
      link = record cleared { transition_active = true; stage = looking_up start };
      outcome = waits;
    }

-- The lookup throws, or says whether the key is paired.
unfoldable pub looked_up :
    Platform → String → String → ℕ → Option Bool → BrowserAuthStart → Daemon → Link → After
looked_up p id random now none start d l = throw_other d (release l)
looked_up p id random now (some false) start d l = record {
  daemon = d;
  link = release l;
  outcome = replied not_paired;
}
looked_up p id random now (some true) start d l =
    give_challenge false (record d { witnessed = paired start ∷ d.witnessed }) l
      (create_browser_auth_challenge p id random now start)

-- `now - lastPairingPromptAt < PAIRING_PROMPT_COOLDOWN_MS`
abbrev pub in_cooldown : ℕ → Option ℕ → Bool
in_cooldown now none = false
in_cooldown now (some t) = ltb now (t + 30000)

-- From the reservation of the connection's attempt to the prompt. An exception runs the `finally` block.
unfoldable pub open_prompt : ℕ → BrowserAuthStart → Daemon → Link → After
open_prompt now start d l =
    let (attempts, mine) = reserve 300000 3 now l.attempts in
    let tried = record l { attempts = attempts } in
    let (all, room) = reserve 600000 3 now d.global_attempts in
    let counted = record d { global_attempts = all } in
    if not mine
    then refuse "BROWSER_PAIRING_RATE_LIMIT"
        "This connection made too many browser pairing attempts." d (release tried)
    else if d.prompt_active
    then refuse "BROWSER_PAIRING_BUSY" "Another pairing prompt is active." d (release tried)
    else if in_cooldown now d.last_prompt_at
    then refuse "BROWSER_PAIRING_COOLDOWN" "Browser pairing is temporarily rate limited." d
        (release tried)
    else if not room
    then refuse "BROWSER_PAIRING_GLOBAL_RATE_LIMIT"
        "Browser pairing prompts are temporarily rate limited." counted (release tried)
    else record {
      daemon = record counted { prompt_active = true };
      link = record tried { transition_active = true; stage = prompting start };
      outcome = waits;
    }

-- `browser.auth.pair` up to the prompt.
unfoldable pub auth_pair : Platform → ℕ → Session → BrowserPairingRequest → Daemon → Link → After
unfolding open_prompt
auth_pair p now s request d l =
    let cleared = clear_expired now l in
    if not (is_agent s)
    then not_agent d l
    else if not (pairing_request_schema p request)
    then throw_other d l
    else if is_occupied cleared
    then busy d cleared
    else open_prompt now request.start d cleared

-- The prompt is over. An exception of `approve` is no approval.
unfoldable pub prompted :
    Platform → String → String → ℕ → Bool → BrowserAuthStart → Daemon → Link → After
prompted p id random now true start d l =
    give_challenge true
      (record d {
        prompt_active = false;
        last_prompt_at = some now;
        witnessed = approved start ∷ d.witnessed;
      })
      l (create_browser_auth_challenge p id random now start)
prompted p id random now false start d l =
    refuse "BROWSER_PAIRING_DENIED" "Browser pairing was not approved."
      (record d { prompt_active = false; last_prompt_at = some now }) (release l)

abbrev pub proof_rejected : Daemon → Link → After
proof_rejected = refuse "BROWSER_AUTHENTICATION_FAILED" "Browser challenge proof was rejected."

abbrev resolves : {A : Type 0} → Result A → Bool
resolves (ok a) = true
resolves (err e) = false

-- `await this.requireState().disconnected(context)`
unfoldable pub leave : ℕ → Bool → BrowserAuthChallenge → Session → Daemon → Link → After
leave now audit_ok c s d l =
    let (broker, r) = disconnected now audit_ok (context_of s) d.broker in
    record {
      daemon = record d { broker = broker };
      link = record l { stage = leaving c (resolves r) };
      outcome = waits;
    }

-- The challenge is taken, and its signature checked.
unfoldable pub take_challenge :
    Platform
    → EcdsaVerify
    → ℕ
    → Bool
    → String
    → BrowserAuthChallenge
    → Session
    → Daemon
    → Link
    → After
unfolding leave
take_challenge p ecdsa now audit_ok signature c s d l =
    let taken = record l { challenge = none; pairs_key = false; transition_active = true } in
    let proven = record d { witnessed = proved c signature now ∷ d.witnessed } in
    if not (verify_browser_auth_signature p ecdsa c signature now)
    then proof_rejected d (release taken)
    else if l.pairs_key
    then record { daemon = proven; link = record taken { stage = persisting c }; outcome = waits }
    else leave now audit_ok c s proven taken

-- `browser.auth.complete` up to its first await.
unfoldable pub auth_complete :
    Platform → EcdsaVerify → ℕ → Bool → Session → BrowserAuthComplete → Daemon → Link → After
unfolding take_challenge
auth_complete p ecdsa now audit_ok s completion d l =
    let cleared = clear_expired now l in
    if not (is_agent s)
    then not_agent d l
    else if not (complete_schema p completion)
    then throw_other d l
    else if cleared.transition_active
    then proof_rejected d cleared
    else elim cleared.challenge [
      | none ↦ proof_rejected d cleared
      | some c ↦
          if not (completion.challenge_id === c.challenge_id)
          then proof_rejected d cleared
          else take_challenge p ecdsa now audit_ok completion.signature c s d cleared
    ]

-- `persistApprovedBrowserPairing` has resolved or rejected.
unfoldable pub persisted : ℕ → Bool → Bool → BrowserAuthChallenge → Session → Daemon → Link → After
unfolding leave
persisted now audit_ok written c s d l =
    if written then leave now audit_ok c s d l else throw_other d (release l)

-- `disconnected` has resolved or rejected: the connection becomes the browser's.
unfoldable pub left : ℕ → String → Bool → BrowserAuthChallenge → Session → Daemon → Link → After
left context_id uuid resolved c s d l =
    let next : Session = record {
      auth = record s.auth {
        role = browser;
        client_id = "tabgrant-extension";
        task_id = "browser-session";
        instance_id = c.start.browser_instance_id;
      };
      context_id = context_id;
    } in
    if resolved
    then record {
      daemon = record d { broker = create_context (context_of next) uuid d.broker };
      link = record (release l) { session = some next };
      outcome = replied (authenticated browser);
    }
    else throw_other d (release l)

-- The parameters of a request, with the shape that they have.
pub data Params : Type 0 where
  hello_params : AuthHello → Params
  start_params : BrowserAuthStart → Params
  pairing_params : BrowserPairingRequest → Params
  completion_params : BrowserAuthComplete → Params
  other_params : Params

-- What a request finds outside: the clock, a fresh object and identifier, and whether an audit is written.
pub record Outside : Type 0 where
  pub now : ℕ
  pub context_id : ℕ
  pub uuid : String
  pub audit_ok : Bool

abbrev hello_of : Params → Option AuthHello
hello_of (hello_params h) = some h
hello_of _ = none

module _ (p : Platform) (ecdsa : EcdsaVerify) (secret : String) where
  abbrev pub start_of : Outside → Session → Params → Daemon → Link → After
  start_of o s (start_params a) d l = auth_start p o.now s a d l
  start_of o s _ d l = if is_agent s then throw_other d l else not_agent d l

  abbrev pub pair_of : Outside → Session → Params → Daemon → Link → After
  pair_of o s (pairing_params a) d l = auth_pair p o.now s a d l
  pair_of o s _ d l = if is_agent s then throw_other d l else not_agent d l

  abbrev pub complete_of : Outside → Session → Params → Daemon → Link → After
  complete_of o s (completion_params a) d l = auth_complete p ecdsa o.now o.audit_ok s a d l
  complete_of o s _ d l = if is_agent s then throw_other d l else not_agent d l

  -- A request of a connection with a context.
  unfoldable pub on_session_request : Outside → String → Params → Session → Daemon → Link → After
  unfolding auth_start auth_pair auth_complete
  on_session_request o method params s d l =
      if method === "broker.kill"
      then refuse "UNKNOWN_METHOD" "Broker kill is a local filesystem control, not an RPC method." d
          l
      else if method === "browser.auth.start"
      then start_of o s params d l
      else if method === "browser.auth.pair"
      then pair_of o s params d l
      else if method === "browser.auth.complete"
      then complete_of o s params d l
      else record { daemon = d; link = l; outcome = forwarded (context_of s) }

  -- The request handler of `accept`, up to its first await or the broker's `handle`.
  unfoldable pub on_request : Outside → String → Params → Daemon → Link → After
  unfolding session_hello on_session_request
  on_request o method params d l =
      if method === "session.hello"
      then session_hello p secret o.context_id o.uuid o.now (hello_of params) d l
      else elim l.session [
        | none ↦ refuse "AUTHENTICATION_REQUIRED" "Authenticate before calling broker methods." d l
        | some s ↦ on_session_request o method params s d l
      ]
