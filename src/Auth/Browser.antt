-- ===== src/Auth/Browser.antt =====
-- apps/broker/src/auth.ts: the key of a browser, its pairing, and the challenge that it signs. The check of
-- an ECDSA signature, dates as texts and the pairing file's bytes are outside the sources: `EcdsaVerify` is
-- `createPublicKey` and `verify` on a key, a payload and a signature, false where they throw.
use tabgrant.Common.{
  ℕ, zero, suc, ◌+◌, String, Bool, false, not, ◌&&◌, ◌||◌, List, [], ◌∷◌, Option, none, some, leb,
  ◌==◌, ◌===◌, if◌then◌else◌, all, length,
}
use tabgrant.Protocol.Platform.{Platform}
use tabgrant.Protocol.Text.{codes, is_alnum, is_digit, digest_schema}
use tabgrant.Policy.Canonicalize.{◌<+>◌}
use tabgrant.Auth.Hello.{join_lines}

-- `kty` is "EC" and `crv` is "P-256".
pub record PublicKey : Type 0 where
  pub x : String
  pub y : String

abbrev is_base64url : ℕ → Bool
is_base64url c = is_alnum c || c == b'_' || c == b'-'

-- `n` characters of a class.
abbrev of_class : ℕ → (ℕ → Bool) → String → Bool
of_class n class s = length (codes s) == n && all class (codes s)

-- `BrowserPublicKeyJwkSchema`
unfoldable pub public_key_schema : PublicKey → Bool
public_key_schema k = of_class 43 is_base64url k.x && of_class 43 is_base64url k.y

-- `/^[a-p]{32}$/`
unfoldable pub extension_id_schema : String → Bool
extension_id_schema = of_class 32 (λ c. leb b'a' c && leb c b'p')

abbrev pub EcdsaVerify : Type 0
EcdsaVerify = PublicKey → String → String → Bool

pub record BrowserAuthStart : Type 0 where
  pub extension_id : String
  pub browser_instance_id : String
  pub public_key : PublicKey

unfoldable pub start_schema : Platform → BrowserAuthStart → Bool
unfolding public_key_schema extension_id_schema
start_schema p s =
    extension_id_schema s.extension_id
    && p.is_uuid s.browser_instance_id
    && public_key_schema s.public_key

pub record BrowserPairingRequest : Type 0 where
  pub start : BrowserAuthStart
  pub pairing_code : String

-- Whether a place of a pairing code is a hyphen: four digits stand between two of them.
unfoldable pub code_digits : ℕ → List ℕ → Bool
code_digits left [] = left == 0
code_digits zero (c ∷ cs) = c == b'-' && code_digits 4 cs
code_digits (suc left) (c ∷ cs) = (is_digit c || (leb b'A' c && leb c b'F')) && code_digits left cs

-- `BrowserPairingRequestSchema`; the code is ten groups, 49 characters.
unfoldable pub pairing_request_schema : Platform → BrowserPairingRequest → Bool
unfolding start_schema code_digits
pairing_request_schema p r =
    start_schema p r.start
    && length (codes r.pairing_code) == 49
    && code_digits 4 (codes r.pairing_code)

pub record BrowserAuthComplete : Type 0 where
  pub challenge_id : String
  pub signature : String

abbrev pub signature_text : String → Bool
signature_text = of_class 86 is_base64url

unfoldable pub complete_schema : Platform → BrowserAuthComplete → Bool
complete_schema p c = p.is_uuid c.challenge_id && signature_text c.signature

pub record BrowserAuthChallenge : Type 0 where
  pub challenge_id : String
  pub challenge : String
  pub start : BrowserAuthStart
  pub expires_at : ℕ

-- `JSON.stringify({ crv, kty, x, y })`
unfoldable pub key_json : Platform → PublicKey → String
key_json p k =
    "{"
    <+> Platform.quote p "crv"
    <+> ":"
    <+> Platform.quote p "P-256"
    <+> ","
    <+> Platform.quote p "kty"
    <+> ":"
    <+> Platform.quote p "EC"
    <+> ","
    <+> Platform.quote p "x"
    <+> ":"
    <+> Platform.quote p k.x
    <+> ","
    <+> Platform.quote p "y"
    <+> ":"
    <+> Platform.quote p k.y
    <+> "}"

-- `browserPublicKeyFingerprint`: `none` where the schema refuses the key.
unfoldable pub public_key_fingerprint : Platform → PublicKey → Option String
unfolding public_key_schema key_json
public_key_fingerprint p k =
    if public_key_schema k then some (p.sha256_hex (key_json p k)) else none

-- `createBrowserAuthChallenge`: `none` where the schema refuses the start. The identifier and the challenge
-- are random texts.
unfoldable pub create_browser_auth_challenge :
    Platform → String → String → ℕ → BrowserAuthStart → Option BrowserAuthChallenge
unfolding start_schema
create_browser_auth_challenge p id random now s =
    if start_schema p s
    then some
        (record { challenge_id = id; challenge = random; start = s; expires_at = now + 30000 })
    else none

unfoldable pub browser_auth_payload : Platform → BrowserAuthChallenge → Option String
unfolding public_key_fingerprint
browser_auth_payload p c = elim (public_key_fingerprint p c.start.public_key) [
  | none ↦ none
  | some print ↦ some (
      join_lines (
        "tabgrant/browser-auth/v1" ∷ c.challenge_id ∷ c.challenge ∷ c.start.extension_id
        ∷ c.start.browser_instance_id ∷ print ∷ []))
]

-- `verifyBrowserAuthSignature`: an exception is caught.
unfoldable pub verify_browser_auth_signature :
    Platform → EcdsaVerify → BrowserAuthChallenge → String → ℕ → Bool
unfolding browser_auth_payload
verify_browser_auth_signature p ecdsa c signature now =
    if leb c.expires_at now || not (signature_text signature)
    then false
    else elim (browser_auth_payload p c) [
      | none ↦ false
      | some payload ↦ ecdsa c.start.public_key payload signature
    ]

pub record BrowserPairing : Type 0 where
  pub extension_id : String
  pub public_key : PublicKey
  pub fingerprint : String
  pub paired_at : String

-- What reading the pairing file comes to: `ENOENT`, another failure, or a JSON value of the shape.
pub data PairingFile : Type 0 where
  missing unreadable : PairingFile
  stored : BrowserPairing → PairingFile

module _ (p : Platform) (is_datetime : String → Bool) (iso_text : ℕ → String) where
  -- `BrowserPairingSchema`
  unfoldable pub pairing_schema : BrowserPairing → Bool
  unfolding public_key_schema extension_id_schema
  pairing_schema b =
      extension_id_schema b.extension_id
      && public_key_schema b.public_key
      && digest_schema b.fingerprint
      && is_datetime b.paired_at

  -- `persistApprovedBrowserPairing`: `none` is an exception before the file is written.
  unfoldable pub persist_approved_browser_pairing : ℕ → BrowserAuthStart → Option PairingFile
  unfolding start_schema public_key_fingerprint
  persist_approved_browser_pairing now s =
      if start_schema p s
      then elim (public_key_fingerprint p s.public_key) [
        | none ↦ none
        | some print ↦ some (
            stored (record {
              extension_id = s.extension_id;
              public_key = s.public_key;
              fingerprint = print;
              paired_at = iso_text now;
            }))
      ]
      else none

  abbrev pub same_key : BrowserPairing → Option String → Option Bool
  same_key b none = none
  same_key b (some print) = some (b.fingerprint === print)

  -- `isPairedBrowserKey`: `none` is an exception.
  unfoldable pub is_paired_browser_key : PairingFile → BrowserAuthStart → Option Bool
  unfolding pairing_schema start_schema public_key_fingerprint
  is_paired_browser_key file s = if not (start_schema p s) then none else elim file [
    | missing ↦ some false
    | unreadable ↦ none
    | stored b ↦
        if not (pairing_schema b)
        then none
        else if not (b.extension_id === s.extension_id)
        then some false
        else same_key b (public_key_fingerprint p s.public_key)
  ]
