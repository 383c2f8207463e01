-- ===== src/Auth/Tests.antt =====
-- A hello of apps/broker/src/auth.ts, its replay, and the theorems at them.
use tabgrant.Common.{◌+◌, ◌≡◌, ◌↔◌, refl, subst, inl, arith, String, true, [], ◌∷◌, none, some}
use tabgrant.Protocol.Text.{length_within, text_length, digest_schema, timestamp_schema}
use tabgrant.Protocol.Platform.{Platform}
use tabgrant.Broker.Records.{agent, browser}
use tabgrant.Broker.Capability.{hex_bytes, same_bytes}
use tabgrant.Auth.Hello.{
  AuthHello, hello_schema, name_schema, nonce_schema, positive_schema, payload_for, proof_of,
  create_auth_hello, accepted, proof_matches, verify_auth_hello,
}
use tabgrant.Auth.HelloLaws.{IsGenuine, verify_auth_hello-accepted_iff, verify_auth_hello-create}
use tabgrant.Auth.Browser.{
  BrowserAuthStart, PairingFile, stored, start_schema, extension_id_schema, public_key_schema,
  public_key_fingerprint, persist_approved_browser_pairing, is_paired_browser_key,
}
use tabgrant.Auth.BrowserLaws.{is_paired-persist_iff}
use tabgrant.Auth.Replay.{
  Memory, blank, hear, forget_nonce, hears, fires, Reachable, started, steps, replay-IsLate,
}

abbrev plain : Platform
plain = record {
  new_url = λ t. none;
  to_lower_case = λ t. t;
  normalize_nfc = λ t. t;
  quote = λ t. t;
  sha256_hex = λ t. t;
  hmac_sha256_hex = λ secret t. "0123456789abcdef0123456789abcdef0123456789abcdef0123456789abcdef";
  number_text = λ n. "7";
  without_query_and_hash = λ t. t;
  is_uuid = λ t. true;
}

-- A hello that claims the role of a browser, made half a minute ahead of the broker's clock.
abbrev hello : AuthHello
hello = record {
  role = browser;
  client_id = "codex";
  task_id = "task-1";
  instance_id = "i";
  nonce = "0123456789abcdef0123456789abcdef";
  timestamp = 40000;
  proof = "0123456789abcdef0123456789abcdef0123456789abcdef0123456789abcdef";
}

abbrev unmasked : AuthHello
unmasked = record hello { role = agent }

accepted_early : verify_auth_hello plain "s" 10000 [] hello ≡ accepted unmasked (hello.nonce ∷ [])
unfolding verify_auth_hello hello_schema proof_matches name_schema nonce_schema length_within
    text_length digest_schema timestamp_schema hex_bytes same_bytes proof_of payload_for
accepted_early = refl

accepted_late : verify_auth_hello plain "s" 70000 [] hello ≡ accepted unmasked (hello.nonce ∷ [])
unfolding verify_auth_hello hello_schema proof_matches name_schema nonce_schema length_within
    text_length digest_schema timestamp_schema hex_bytes same_bytes proof_of payload_for
accepted_late = refl

verify_auth_hello-accepted_iff_example :
    (verify_auth_hello plain "s" 10000 [] hello ≡ accepted unmasked (hello.nonce ∷ [])) ↔ (
      IsGenuine plain "s" 10000 [] hello
      × (record hello { role = agent } ≡ unmasked)
      × (hello.nonce ∷ [] ≡ hello.nonce ∷ []))
verify_auth_hello-accepted_iff_example =
    verify_auth_hello-accepted_iff plain "s" 10000 [] hello unmasked (hello.nonce ∷ [])

name_lem : name_schema "codex" ≡ true
unfolding name_schema length_within text_length
name_lem = refl

nonce_lem : nonce_schema hello.nonce ≡ true
unfolding nonce_schema
nonce_lem = refl

digest_lem : (key text : String) → digest_schema (Platform.hmac_sha256_hex plain key text) ≡ true
unfolding digest_schema
digest_lem key text = refl

positive_lem : positive_schema 5 ≡ true
unfolding timestamp_schema
positive_lem = refl

verify_auth_hello-create_example :
    verify_auth_hello plain "s" 30005 []
      (create_auth_hello plain "s" agent "codex" "codex" "i" "0123456789abcdef0123456789abcdef" 5)
    ≡ accepted
        (record (create_auth_hello plain "s" agent "codex" "codex" "i"
          "0123456789abcdef0123456789abcdef" 5) { role = agent })
        ("0123456789abcdef0123456789abcdef" ∷ [])
verify_auth_hello-create_example =
    verify_auth_hello-create plain "s" agent "codex" "codex" "i" "0123456789abcdef0123456789abcdef"
      5 30005 [] digest_lem name_lem name_lem refl nonce_lem positive_lem (omega arith)
      (omega arith) refl

abbrev heard : Memory
heard = record { clock = 10000; due = (hello.nonce, 10000) ∷ []; seen = (hello, 10000) ∷ [] }

heard_lem : hear plain "s" 10000 hello blank ≡ heard
unfolding hear
heard_lem = rw accepted_early refl

abbrev forgotten : Memory
forgotten = forget_nonce hello.nonce 70000 heard

heard-Reachable : Reachable plain "s" heard
heard-Reachable =
    subst (Reachable plain "s") heard_lem (
      steps blank (hear plain "s" 10000 hello blank) started
        (hears 10000 hello blank (omega arith)))

forgotten-Reachable : Reachable plain "s" forgotten
forgotten-Reachable =
    steps heard forgotten heard-Reachable
      (fires hello.nonce 10000 70000 heard refl (omega arith) (omega arith))

replay-IsLate_example : (70000 ≡ 10000 + 60000) × (70000 ≡ hello.timestamp + 30000)
replay-IsLate_example =
    replay-IsLate plain "s" forgotten 70000 10000 hello unmasked (hello.nonce ∷ [])
      forgotten-Reachable (omega arith) (inl refl) accepted_late

abbrev start : BrowserAuthStart
start = record {
  extension_id = "abcdefghijklmnopabcdefghijklmnop";
  browser_instance_id = "b";
  public_key = record {
    x = "0123456789012345678901234567890123456789012";
    y = "0123456789012345678901234567890123456789012";
  };
}

abbrev other_start : BrowserAuthStart
other_start = record start { extension_id = "ponmlkjihgfedcbaponmlkjihgfedcba" }

abbrev hashing : Platform
hashing = record plain {
  sha256_hex = λ t. "0123456789abcdef0123456789abcdef0123456789abcdef0123456789abcdef";
}

hashing_digest : (text : String) → digest_schema (Platform.sha256_hex hashing text) ≡ true
unfolding digest_schema
hashing_digest text = refl

abbrev start_pairing : PairingFile
start_pairing = stored (record {
  extension_id = start.extension_id;
  public_key = start.public_key;
  fingerprint = "0123456789abcdef0123456789abcdef0123456789abcdef0123456789abcdef";
  paired_at = "now";
})

stored_lem :
    persist_approved_browser_pairing hashing (λ t. true) (λ n. "now") 5 start ≡ some start_pairing
unfolding persist_approved_browser_pairing start_schema extension_id_schema public_key_schema
    public_key_fingerprint
stored_lem = refl

other_lem : start_schema hashing other_start ≡ true
unfolding start_schema extension_id_schema public_key_schema
other_lem = refl

is_paired-persist_iff_example :
    (is_paired_browser_key hashing (λ t. true) (λ n. "now") start_pairing other_start ≡ some true)
    ↔ ((start.extension_id ≡ other_start.extension_id)
        × (public_key_fingerprint hashing start.public_key
            ≡ public_key_fingerprint hashing other_start.public_key))
is_paired-persist_iff_example =
    is_paired-persist_iff hashing (λ t. true) (λ n. "now") hashing_digest (λ n. refl) 5 start
      other_start start_pairing stored_lem other_lem
