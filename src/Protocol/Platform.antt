-- ===== src/Protocol/Platform.antt =====
-- What the code takes from the JavaScript platform and node:crypto, as parameters: nothing here is
-- defined under the repository's sources.
use tabgrant.Common.{ℕ, Bool, String, Option}

-- The fields of a parsed `URL` that the code reads.
pub record Url : Type 0 where
  pub href : String
  pub origin : String
  pub protocol : String
  pub hostname : String
  pub username : String
  pub password : String

pub record Platform : Type 0 where
  -- `new URL(text)`, `none` where the constructor throws.
  pub new_url : String → Option Url
  -- `text.toLowerCase()`
  pub to_lower_case : String → String
  -- `text.normalize("NFC")`
  pub normalize_nfc : String → String
  -- `JSON.stringify(text)` on a text: the quoted text.
  pub quote : String → String
  -- `createHash("sha256").update(text).digest("hex")`
  pub sha256_hex : String → String
  -- `createHmac("sha256", secret).update(text).digest("hex")`
  pub hmac_sha256_hex : String → String → String
  -- `String(n)`
  pub number_text : ℕ → String
  -- `new URL(text)` with an empty `search` and `hash`, as a text.
  pub without_query_and_hash : String → String
  -- `z.string().uuid()`
  pub is_uuid : String → Bool
