-- ===== src/Auth/Hello.antt =====
-- apps/broker/src/auth.ts: the hello of a local connection, its proof and the nonces that are used up. A
-- secret is the key text of the HMAC.
use tabgrant.Common.{
  ℕ, ◌+◌, String, Bool, not, ◌&&◌, ◌||◌, List, [], ◌∷◌, leb, ltb, ◌==◌, ◌===◌, if◌then◌else◌, all,
  any, length,
}
use tabgrant.Protocol.Platform.{Platform}
use tabgrant.Protocol.Text.{
  codes, length_within, is_name_char, is_hex, digest_schema, timestamp_schema,
}
use tabgrant.Policy.Canonicalize.{◌<+>◌}
use tabgrant.Broker.Capability.{hex_bytes, same_bytes}
use tabgrant.Broker.Records.{Role, agent, browser}

pub record AuthHello : Type 0 where
  pub role : Role
  pub client_id : String
  pub task_id : String
  pub instance_id : String
  pub nonce : String
  pub timestamp : ℕ
  pub proof : String

-- `/^[a-zA-Z0-9._:-]+$/` with 1 to 128 characters.
unfoldable pub name_schema : String → Bool
unfolding length_within
name_schema s = length_within 1 128 s && all is_name_char (codes s)

-- `/^[a-f0-9]{32}$/`
unfoldable pub nonce_schema : String → Bool
nonce_schema s = length (codes s) == 32 && all is_hex (codes s)

-- `z.number().int().positive()`
abbrev pub positive_schema : ℕ → Bool
positive_schema n = leb 1 n && timestamp_schema n

-- `AuthHelloSchema` on a value of the right shape.
unfoldable pub hello_schema : Platform → AuthHello → Bool
unfolding name_schema nonce_schema
hello_schema p h =
    name_schema h.client_id
    && name_schema h.task_id
    && p.is_uuid h.instance_id
    && nonce_schema h.nonce
    && positive_schema h.timestamp
    && digest_schema h.proof

abbrev role_text : Role → String
role_text agent = "agent"
role_text browser = "browser"

-- `parts.join("\n")`
abbrev pub join_lines : List String → String
join_lines [] = ""
join_lines (a ∷ []) = a
join_lines (a ∷ b ∷ rest) = a <+> "\n" <+> join_lines (b ∷ rest)

unfoldable pub payload_for : Platform → AuthHello → String
payload_for p h = join_lines (
    role_text h.role
    ∷ h.client_id
    ∷ h.task_id
    ∷ h.instance_id
    ∷ h.nonce
    ∷ p.number_text h.timestamp
    ∷ [])

-- `createHmac("sha256", secret).update(payloadFor(unsigned)).digest("hex")`
unfoldable pub proof_of : Platform → String → AuthHello → String
unfolding payload_for
proof_of p secret h = Platform.hmac_sha256_hex p secret (payload_for p h)

-- `createAuthHello`: the nonce is 16 random bytes as a text.
unfoldable pub create_auth_hello :
    Platform
    → String
    → (role : Role) → (client_id task_id instance_id nonce : String) → ℕ
    → AuthHello
unfolding proof_of
create_auth_hello p secret role client_id task_id instance_id nonce now =
    let unsigned : AuthHello = record {
      role = role;
      client_id = client_id;
      task_id = task_id;
      instance_id = instance_id;
      nonce = nonce;
      timestamp = now;
      proof = "";
    } in
    record unsigned { proof = proof_of p secret unsigned }

pub data HelloError : Type 0 where
  malformed_hello outside_window nonce_used invalid_proof : HelloError

pub data Verified : Type 0 where
  accepted : AuthHello → List String → Verified
  rejected : HelloError → Verified

-- `Math.abs(now - timestamp) > 30_000`
abbrev pub is_outside : ℕ → ℕ → Bool
is_outside now t = ltb (t + 30000) now || ltb (now + 30000) t

-- `usedNonces.has(nonce)`
abbrev pub has_nonce : String → List String → Bool
has_nonce nonce = any (λ x. x === nonce)

-- `supplied.length !== expected.length || !timingSafeEqual(supplied, expected)` is false.
unfoldable pub proof_matches : Platform → String → AuthHello → Bool
unfolding proof_of
proof_matches p secret h =
    same_bytes (hex_bytes (codes h.proof)) (hex_bytes (codes (proof_of p secret h)))

-- `verifyAuthHello` on a value of the right shape.
unfoldable pub verify_auth_hello : Platform → String → ℕ → List String → AuthHello → Verified
unfolding hello_schema proof_matches
verify_auth_hello p secret now used h =
    if not (hello_schema p h)
    then rejected malformed_hello
    else if is_outside now h.timestamp
    then rejected outside_window
    else if has_nonce h.nonce used
    then rejected nonce_used
    else if not (proof_matches p secret h)
    then rejected invalid_proof
    else accepted (record h { role = agent }) (h.nonce ∷ used)
