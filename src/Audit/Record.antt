-- ===== src/Audit/Record.antt =====
-- apps/broker/src/audit.ts: a record, its text and its signature. The key is the key text of the HMAC.
use tabgrant.Common.{ℕ, String, Bool, true, ◌&&◌, Option, none, some}
use tabgrant.Protocol.Platform.{Platform}
use tabgrant.Protocol.Text.{codes, length_within, digest_schema}
use tabgrant.Policy.Canonicalize.{◌<+>◌}
use tabgrant.Broker.Capability.{hex_bytes, same_bytes}
use tabgrant.Broker.Records.{AuditEvent, AuditOutcome, info, allowed, refused}

-- `"0".repeat(64)`
abbrev pub initial_hash : String
initial_hash = "0000000000000000000000000000000000000000000000000000000000000000"

abbrev optional_text : ℕ → Option String → Bool
optional_text high none = true
optional_text high (some t) = length_within 1 high t

-- `AuditRecordSchema`
unfoldable pub record_schema : AuditEvent → Bool
unfolding length_within
record_schema r =
    length_within 1 128 r.event
    && optional_text 128 r.client_id
    && optional_text 128 r.task_id
    && optional_text 128 r.lease_id
    && optional_text 2048 r.origin
    && optional_text 96 r.method
    && optional_text 128 r.reason_code

pub record Persisted : Type 0 where
  pub record_of : AuditEvent
  pub timestamp : String
  pub previous_hash : String
  pub hash : String

-- `PersistedAuditRecordSchema`; `is_timestamp` is the canonical form of a date, which `Date` decides.
unfoldable pub persisted_schema : (String → Bool) → Persisted → Bool
unfolding record_schema
persisted_schema is_timestamp r =
    record_schema r.record_of
    && is_timestamp r.timestamp
    && digest_schema r.previous_hash
    && digest_schema r.hash

abbrev outcome_text : AuditOutcome → String
outcome_text allowed = "allowed"
outcome_text refused = "denied"
outcome_text info = "info"

abbrev member : Platform → String → String → String
member p k t = Platform.quote p k <+> ":" <+> Platform.quote p t

-- A member that is there, with a comma behind it.
abbrev optional_member : Platform → String → Option String → String
optional_member p k none = ""
optional_member p k (some t) = member p k t <+> ","

-- The members of `unsignedRecord`, without the braces.
unfoldable pub unsigned_members : Platform → AuditEvent → String → String → String
unsigned_members p r timestamp previous_hash =
    member p "event" r.event
    <+> ","
    <+> member p "outcome" (outcome_text r.outcome)
    <+> ","
    <+> optional_member p "clientId" r.client_id
    <+> optional_member p "taskId" r.task_id
    <+> optional_member p "leaseId" r.lease_id
    <+> optional_member p "origin" r.origin
    <+> optional_member p "method" r.method
    <+> optional_member p "reasonCode" r.reason_code
    <+> member p "timestamp" timestamp
    <+> ","
    <+> member p "previousHash" previous_hash

-- `signRecord` on `unsignedRecord`
unfoldable pub sign_record : Platform → String → AuditEvent → String → String → String
unfolding unsigned_members
sign_record p key r timestamp previous_hash =
    Platform.hmac_sha256_hex p key ("{" <+> unsigned_members p r timestamp previous_hash <+> "}")

-- `JSON.stringify(persisted)`
unfoldable pub persisted_json : Platform → Persisted → String
unfolding unsigned_members
persisted_json p r =
    "{"
    <+> unsigned_members p r.record_of r.timestamp r.previous_hash
    <+> ","
    <+> member p "hash" r.hash
    <+> "}"

-- `hashesEqual`
unfoldable pub hashes_equal : String → String → Bool
hashes_equal a b = same_bytes (hex_bytes (codes a)) (hex_bytes (codes b))

-- The record that `serializeRecord` writes.
unfoldable pub persist : Platform → String → String → String → AuditEvent → Persisted
unfolding sign_record
persist p key timestamp previous_hash r = record {
  record_of = r;
  timestamp = timestamp;
  previous_hash = previous_hash;
  hash = sign_record p key r timestamp previous_hash;
}
