-- ===== src/Auth/HelloLaws.antt =====
-- apps/broker/src/auth.ts: which hellos `verifyAuthHello` accepts, and that it accepts what
-- `createAuthHello` makes.
use tabgrant.Common.{
  ℕ, ◌+◌, ◌≤◌, ◌≡◌, ◌↔◌, refl, String, Bool, true, false, not, List, ◌∷◌, arith, if◌then◌else◌,
}
use tabgrant.Protocol.Platform.{Platform}
use tabgrant.Protocol.Text.{codes, digest_schema}
use tabgrant.Broker.Records.{Role, agent}
use tabgrant.Broker.Capability.{hex_bytes}
use tabgrant.Broker.Signature.{same_bytes_refl, same_bytes_sound}
use tabgrant.Auth.Hello.{
  AuthHello, name_schema, nonce_schema, positive_schema, hello_schema, payload_for, proof_of,
  create_auth_hello, malformed_hello, outside_window, nonce_used, invalid_proof, Verified, accepted,
  rejected, is_outside, has_nonce, proof_matches, verify_auth_hello,
}

-- What a hello has to be: of the schema, within 30 seconds of the clock, with a nonce that is not used and
-- the bytes of the secret's own signature of its payload.
pub record IsGenuine (p : Platform) (secret : String) (now : ℕ) (used : List String) (h : AuthHello)
    : Type 0 where
  pub shaped : hello_schema p h ≡ true
  pub not_late : now ≤ h.timestamp + 30000
  pub not_early : h.timestamp ≤ now + 30000
  pub fresh : has_nonce h.nonce used ≡ false
  pub signed : hex_bytes (codes h.proof) ≡ hex_bytes (codes (proof_of p secret h))

-- The four guards in a row.
guards : Bool → Bool → Bool → Bool → AuthHello → List String → Verified
guards malformed outside again bad h used =
    if malformed
    then rejected malformed_hello
    else if outside
    then rejected outside_window
    else if again
    then rejected nonce_used
    else if bad
    then rejected invalid_proof
    else accepted h used

guards-accepted :
    (a b c d : Bool) (h k : AuthHello) (used later : List String)
    → guards a b c d h used ≡ accepted k later
    → (a ≡ false) × (b ≡ false) × (c ≡ false) × (d ≡ false) × (h ≡ k) × (used ≡ later)
unfolding guards
guards-accepted true b c d h k used later e = absurd (cc)
guards-accepted false true c d h k used later e = absurd (cc)
guards-accepted false false true d h k used later e = absurd (cc)
guards-accepted false false false true h k used later e = absurd (cc)
guards-accepted false false false false h k used later e = (refl, refl, refl, refl, cc, cc)

module _ (p : Platform) (secret : String) (now : ℕ) (used : List String) (h : AuthHello) where
  accept-IsGenuine :
      (k : AuthHello) (later : List String)
      → verify_auth_hello p secret now used h ≡ accepted k later
      → IsGenuine p secret now used h × (record h { role = agent } ≡ k) × (h.nonce ∷ used ≡ later)
  unfolding verify_auth_hello guards proof_matches
  accept-IsGenuine k later e =
      let (shape, window, fresh, sign, same, grown) =
        guards-accepted (not (hello_schema p h)) (is_outside now h.timestamp)
          (has_nonce h.nonce used) (not (proof_matches p secret h)) (record h { role = agent }) k
          (h.nonce ∷ used) later e in
      (
        record {
          shaped = ground arith;
          not_late = ground arith;
          not_early = ground arith;
          fresh = fresh;
          signed = same_bytes_sound _ _ (ground arith);
        },
        same,
        grown,
      )

  genuine-accepted :
      IsGenuine p secret now used h
      → verify_auth_hello p secret now used h
        ≡ accepted (record h { role = agent }) (h.nonce ∷ used)
  unfolding verify_auth_hello proof_matches
  genuine-accepted g =
      let inside : is_outside now h.timestamp ≡ false =
        let a = g.not_late in let b = g.not_early in ground arith in
      let matching : proof_matches p secret h ≡ true =
        rw g.signed (same_bytes_refl (hex_bytes (codes (proof_of p secret h)))) in
      rw (g.shaped, inside, g.fresh, matching) refl

  -- `verifyAuthHello` accepts a hello exactly when it fits the schema, its time is within 30 seconds of the
  -- clock, its nonce is not used and its proof has the bytes of the secret's signature of its payload. What
  -- it returns then is the hello with the role of an agent, whatever it claims, and the nonce is used.
  pub verify_auth_hello-accepted_iff :
      (k : AuthHello) (later : List String)
      → (verify_auth_hello p secret now used h ≡ accepted k later) ↔ (
          IsGenuine p secret now used h
          × (record h { role = agent } ≡ k)
          × (h.nonce ∷ used ≡ later))
  verify_auth_hello-accepted_iff k later =
      (accept-IsGenuine k later, λ (g, same, grown). rw (← same, ← grown) (genuine-accepted g))

-- What `createAuthHello` makes with a sound identity and a fresh nonce is accepted within 30 seconds, if
-- SHA-256 signatures are 64 hexadecimal digits.
pub verify_auth_hello-create :
    (p : Platform) (secret : String) (role : Role) (client_id task_id instance_id nonce : String)
    (made now : ℕ) (used : List String)
    → ((key text : String) → digest_schema (Platform.hmac_sha256_hex p key text) ≡ true)
    → name_schema client_id ≡ true
    → name_schema task_id ≡ true
    → p.is_uuid instance_id ≡ true
    → nonce_schema nonce ≡ true
    → positive_schema made ≡ true
    → now ≤ made + 30000
    → made ≤ now + 30000
    → has_nonce nonce used ≡ false
    → verify_auth_hello p secret now used
        (create_auth_hello p secret role client_id task_id instance_id nonce made)
      ≡ accepted
          (record (create_auth_hello p secret role client_id task_id instance_id nonce made) {
            role = agent;
          })
          (nonce ∷ used)
unfolding create_auth_hello hello_schema proof_of payload_for
verify_auth_hello-create p secret role client_id task_id instance_id nonce made now used digest
      client task uuid unique time late early fresh =
    let h = create_auth_hello p secret role client_id task_id instance_id nonce made in
    genuine-accepted p secret now used h (record {
      shaped = rw (client, task, uuid, unique, time, digest) refl;
      not_late = late;
      not_early = early;
      fresh = fresh;
      signed = refl;
    })
