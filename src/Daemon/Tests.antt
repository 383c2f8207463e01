-- ===== src/Daemon/Tests.antt =====
-- The pairing of one browser with a `BrokerDaemon` of apps/broker/src/daemon.ts, and the theorems at it.
use tabgrant.Common.{ℕ, ◌≤◌, ◌≡◌, refl, subst, arith, String, true, false, [], ◌∷◌, none, some}
use tabgrant.Protocol.Text.{length_within, text_length, digest_schema, timestamp_schema}
use tabgrant.Protocol.Platform.{Platform}
use tabgrant.Broker.Records.{then_do, agent, browser, initial_state}
use tabgrant.Broker.Capability.{hex_bytes, same_bytes}
use tabgrant.Broker.Lifecycle.{
  create_context, disconnected, browser_of, session_of, agent_disconnected,
}
use tabgrant.Auth.Hello.{
  AuthHello, name_schema, nonce_schema, hello_schema, payload_for, proof_of, proof_matches,
  verify_auth_hello,
}
use tabgrant.Auth.Browser.{
  code_digits, public_key_schema, extension_id_schema, EcdsaVerify, BrowserAuthStart, start_schema,
  BrowserPairingRequest, pairing_request_schema, complete_schema, BrowserAuthChallenge,
  public_key_fingerprint, create_browser_auth_challenge, browser_auth_payload,
  verify_browser_auth_signature,
}
use tabgrant.Daemon.Attempts.{drop_old, reserve, reserved, recent, reserved-IsPaced, reserve-free}
use tabgrant.Daemon.Link.{
  new_daemon, Session, new_link, After, context_of, session_hello, approved, proved, idle,
  prompting, persisting, leaving, authenticated, challenged, replied, waits,
}
use tabgrant.Daemon.Browser.{
  open_prompt, auth_pair, prompted, leave, take_challenge, auth_complete, persisted, left, Outside,
  on_session_request, on_request, hello_params, pairing_params, completion_params,
}
use tabgrant.Daemon.System.{
  System, new_system, put, Step, Reachable, requests, prompts, persists, leaves, started, steps,
}
use tabgrant.Daemon.Order.{IsOrderly}
use tabgrant.Daemon.Witnesses.{Vouched}
use tabgrant.Daemon.Backing.{browser-Vouched}
use tabgrant.Daemon.Prompts.{prompt_unique, Reachable-IsOrderly}

-- Every text counts as a UUID, and every digest is the same.
abbrev plain : Platform
plain = record {
  new_url = λ t. none;
  to_lower_case = λ t. t;
  normalize_nfc = λ t. t;
  quote = λ t. t;
  sha256_hex = λ t. "0123456789abcdef0123456789abcdef0123456789abcdef0123456789abcdef";
  hmac_sha256_hex = λ secret t. "0123456789abcdef0123456789abcdef0123456789abcdef0123456789abcdef";
  number_text = λ n. "7";
  without_query_and_hash = λ t. t;
  is_uuid = λ t. true;
}

-- Every signature of the right form is right.
abbrev trusting : EcdsaVerify
trusting key payload signature = true

abbrev hello : AuthHello
hello = record {
  role = agent;
  client_id = "codex";
  task_id = "task-1";
  instance_id = "i";
  nonce = "0123456789abcdef0123456789abcdef";
  timestamp = 10000;
  proof = "0123456789abcdef0123456789abcdef0123456789abcdef0123456789abcdef";
}

abbrev start : BrowserAuthStart
start = record {
  extension_id = "abcdefghijklmnopabcdefghijklmnop";
  browser_instance_id = "b";
  public_key = record {
    x = "0123456789012345678901234567890123456789012";
    y = "0123456789012345678901234567890123456789012";
  };
}

abbrev challenge : BrowserAuthChallenge
challenge = record { challenge_id = "c"; challenge = "r"; start = start; expires_at = 55000 }

abbrev signature : String
signature = "01234567890123456789012345678901234567890123456789012345678901234567890123456789012345"

abbrev pairing : BrowserPairingRequest
pairing = record {
  start = start;
  pairing_code = "0000-1111-2222-3333-4444-5555-6666-7777-8888-9999";
}

abbrev outside : ℕ → Outside
outside now = record { now = now; context_id = 1; uuid = "u"; audit_ok = true }

abbrev agent_session : Session
agent_session = record { auth = hello; context_id = 1 }

abbrev browser_session : Session
browser_session = record {
  auth = record hello {
    role = browser;
    client_id = "tabgrant-extension";
    task_id = "browser-session";
    instance_id = "b";
  };
  context_id = 2;
}

abbrev greeted : After
greeted = record {
  daemon = record new_daemon {
    due = (hello.nonce, 10000) ∷ [];
    broker = create_context (context_of agent_session) "u" initial_state;
  };
  link = record new_link { session = some agent_session };
  outcome = replied (authenticated agent);
}

greeted_lem :
    on_request plain trusting "s"
      (outside 10000)
      "session.hello"
      (hello_params hello)
      new_daemon
      new_link
    ≡ greeted
unfolding on_request session_hello verify_auth_hello hello_schema proof_matches name_schema
    nonce_schema length_within text_length digest_schema timestamp_schema hex_bytes same_bytes
    proof_of payload_for
greeted_lem = refl

abbrev asked : After
asked = record {
  daemon = record greeted.daemon { prompt_active = true; global_attempts = 20000 ∷ [] };
  link = record greeted.link {
    attempts = 20000 ∷ [];
    transition_active = true;
    stage = prompting start;
  };
  outcome = waits;
}

asked_lem :
    on_request plain trusting "s"
      (outside 20000)
      "browser.auth.pair"
      (pairing_params pairing)
      greeted.daemon
      greeted.link
    ≡ asked
unfolding on_request on_session_request auth_pair pairing_request_schema start_schema
    public_key_schema extension_id_schema code_digits open_prompt reserve drop_old
asked_lem = refl

abbrev given : After
given = record {
  daemon = record asked.daemon {
    prompt_active = false;
    last_prompt_at = some 25000;
    witnessed = approved start ∷ [];
  };
  link = record asked.link {
    transition_active = false;
    stage = idle;
    challenge = some challenge;
    pairs_key = true;
  };
  outcome = replied (challenged challenge);
}

given_lem : prompted plain "c" "r" 25000 true start asked.daemon asked.link ≡ given
unfolding prompted create_browser_auth_challenge start_schema public_key_schema extension_id_schema
given_lem = refl

abbrev signed : After
signed = record {
  daemon = record given.daemon {
    witnessed = proved challenge signature 30000 ∷ approved start ∷ [];
  };
  link = record given.link {
    challenge = none;
    pairs_key = false;
    transition_active = true;
    stage = persisting challenge;
  };
  outcome = waits;
}

signed_lem :
    on_request plain trusting "s"
      (outside 30000)
      "browser.auth.complete"
      (completion_params (record { challenge_id = "c"; signature = signature }))
      given.daemon
      given.link
    ≡ signed
unfolding on_request on_session_request auth_complete complete_schema take_challenge
    verify_browser_auth_signature browser_auth_payload public_key_fingerprint public_key_schema
signed_lem = refl

abbrev kept : After
kept = record {
  daemon = record signed.daemon {
    broker = (disconnected 30001 true (context_of agent_session) signed.daemon.broker).0;
  };
  link = record signed.link { stage = leaving challenge true };
  outcome = waits;
}

kept_lem : persisted 30001 true true challenge agent_session signed.daemon signed.link ≡ kept
unfolding persisted leave disconnected create_context browser_of session_of agent_disconnected
    then_do
kept_lem = refl

abbrev done : After
done = record {
  daemon = record kept.daemon {
    broker = create_context (context_of browser_session) "v" kept.daemon.broker;
  };
  link = record kept.link {
    transition_active = false;
    stage = idle;
    session = some browser_session;
  };
  outcome = replied (authenticated browser);
}

done_lem : left 2 "v" true challenge agent_session kept.daemon kept.link ≡ done
unfolding left
done_lem = refl

-- Connection 0 takes a step, whose result is known.
go :
    (a b : After) (y : System)
    → a ≡ b
    → Reachable plain trusting "s" "a" y
    → Step plain trusting "s" "a" y (put 0 a y)
    → Reachable plain trusting "s" "a" (put 0 b y)
go a b y is past step =
    subst (λ x. Reachable plain trusting "s" "a" (put 0 x y)) is (steps y (put 0 a y) past step)

abbrev asking : System
asking = put 0 asked (put 0 greeted new_system)

asking-Reachable : Reachable plain trusting "s" "a" asking
asking-Reachable =
    go _ asked (put 0 greeted new_system) asked_lem
      (go _ greeted new_system greeted_lem started
        (requests 0 (outside 10000) "session.hello" (hello_params hello) new_system))
      (requests 0 (outside 20000) "browser.auth.pair" (pairing_params pairing)
        (put 0 greeted new_system))

abbrev signing : System
signing = put 0 signed (put 0 given asking)

signing-Reachable : Reachable plain trusting "s" "a" signing
signing-Reachable =
    go _ signed (put 0 given asking) signed_lem
      (go _ given asking given_lem asking-Reachable
        (prompts 0 "c" "r" 25000 true start asking refl))
      (requests 0 (outside 30000) "browser.auth.complete"
        (completion_params (record { challenge_id = "c"; signature = signature }))
        (put 0 given asking))

abbrev finished : System
finished = put 0 done (put 0 kept signing)

finished-Reachable : Reachable plain trusting "s" "a" finished
finished-Reachable =
    go _ done (put 0 kept signing) done_lem
      (go _ kept signing kept_lem signing-Reachable
        (persists 0 30001 true true challenge agent_session signing refl refl))
      (leaves 0 2 "v" true challenge agent_session (put 0 kept signing) refl refl)

browser-Vouched_example : Vouched plain trusting finished.daemon.witnessed "b"
browser-Vouched_example =
    browser-Vouched plain trusting "s" "a" finished 0 browser_session finished-Reachable refl refl

prompt_unique_example : ◌≡◌ {A = ℕ} 0 0
prompt_unique_example = prompt_unique plain trusting "s" "a" asking 0 0 asking-Reachable refl refl

Reachable-IsOrderly_example : IsOrderly asking.daemon (asking.links 0)
Reachable-IsOrderly_example = Reachable-IsOrderly plain trusting "s" "a" asking 0 asking-Reachable

reserved-IsPaced_example : recent 300000 10 (reserved 300000 3 (1 ∷ 2 ∷ 3 ∷ 4 ∷ []) []) ≤ 3
reserved-IsPaced_example =
    reserved-IsPaced 300000 3 10 (1 ∷ 2 ∷ 3 ∷ 4 ∷ [])
      (omega arith, (omega arith, (omega arith, (omega arith, tt))))

reserve-free_example : reserve 300000 3 300005 (4 ∷ 5 ∷ []) ≡ (300005 ∷ [], true)
reserve-free_example =
    reserve-free 300000 3 300005 (4 ∷ 5 ∷ []) (omega arith) (omega arith, (omega arith, tt))
