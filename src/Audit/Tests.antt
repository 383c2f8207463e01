-- ===== src/Audit/Tests.antt =====
-- Two records in a new segment of the audit log of apps/broker/src/audit.ts, and the theorems at them.
use tabgrant.Common.{
  ℕ, ◌≡◌, refl, String, true, List, [], ◌∷◌, none, some, length, ltb, if◌then◌else◌,
}
use tabgrant.Protocol.Platform.{Platform}
use tabgrant.Protocol.Text.{codes, length_within, text_length, digest_schema}
use tabgrant.Broker.Records.{AuditEvent, info, allowed}
use tabgrant.Audit.Record.{
  initial_hash, record_schema, Persisted, sign_record, persisted_json, persist, unsigned_members,
}
use tabgrant.Audit.Segment.{
  split_lines, Surroundings, Active, fresh, appended, verify_segment, serialize_record, kept_record,
  extended, append_record, manifest_segment,
}
use tabgrant.Audit.SegmentLaws.{IsReadable, Written, first, next, Written-verified}
use tabgrant.Audit.ChainLaws.{IsChained, verify_segment-IsChained}

abbrev digest : String
digest = "0123456789abcdef0123456789abcdef0123456789abcdef0123456789abcdef"

abbrev plain : Platform
plain = record {
  new_url = λ t. none;
  to_lower_case = λ t. t;
  normalize_nfc = λ t. t;
  quote = λ t. t;
  sha256_hex = λ t. digest;
  hmac_sha256_hex = λ secret t. digest;
  number_text = λ n. "7";
  without_query_and_hash = λ t. t;
  is_uuid = λ t. true;
}

abbrev connected : AuditEvent
connected = record {
  event = "up";
  outcome = info;
  client_id = none;
  task_id = none;
  lease_id = none;
  origin = none;
  method = none;
  reason_code = none;
}

abbrev requested : AuditEvent
requested = record connected {
  event = "access.requested";
  outcome = allowed;
  client_id = some "codex";
}

abbrev early : Persisted
early = record {
  record_of = connected;
  timestamp = "now";
  previous_hash = initial_hash;
  hash = digest;
}

abbrev late : Persisted
late = record { record_of = requested; timestamp = "now"; previous_hash = digest; hash = digest }

-- The longer line is the later record's.
abbrev around : Surroundings
around = record {
  is_timestamp = λ t. true;
  iso_text = λ n. "now";
  utf8 = codes;
  parse = λ l. if ltb (length l) 210 then some early else some late;
  sha256 = λ l. digest;
}

abbrev one : Active
one = extended plain around "k" "audit" 5 (kept_record plain around "k" 5 connected fresh) fresh

abbrev two : Active
two = extended plain around "k" "audit" 6 (kept_record plain around "k" 6 requested one) one

early-IsReadable : IsReadable plain around (kept_record plain around "k" 5 connected fresh)
unfolding persist sign_record persisted_json unsigned_members
early-IsReadable = record { reads = refl; one_line = refl; not_empty = refl }

late-IsReadable : IsReadable plain around (kept_record plain around "k" 6 requested one)
unfolding persist sign_record persisted_json unsigned_members extended
late-IsReadable = record { reads = refl; one_line = refl; not_empty = refl }

one_lem : append_record plain around "k" 1024 "audit" 5 connected fresh ≡ appended one
unfolding append_record record_schema length_within text_length serialize_record persisted_json
    unsigned_members persist sign_record
one_lem = refl

two_lem : append_record plain around "k" 1024 "audit" 6 requested one ≡ appended two
unfolding append_record record_schema length_within text_length serialize_record persisted_json
    unsigned_members persist sign_record extended
two_lem = refl

digest_lem : digest_schema digest ≡ true
unfolding digest_schema
digest_lem = refl

two-Written :
    Written plain around "k" 1024 "audit" two
      (kept_record plain around "k" 5 connected fresh)
      (kept_record plain around "k" 6 requested one ∷ [])
two-Written =
    next 6 requested one two (kept_record plain around "k" 5 connected fresh) []
      (first 5 connected one early-IsReadable one_lem) late-IsReadable two_lem

Written-verified_example :
    (verify_segment plain around "k" two.contents
      ≡ some (
          kept_record plain around "k" 5 connected fresh
          ∷ kept_record plain around "k" 6 requested one
          ∷ []))
    × (two.entry
        ≡ some (
            manifest_segment plain around "k" "audit" two.contents
              (kept_record plain around "k" 5 connected fresh)
              (kept_record plain around "k" 6 requested one ∷ [])))
Written-verified_example =
    Written-verified plain around "k" 1024 "audit" (λ key text. digest_lem) (λ n. refl) two
      (kept_record plain around "k" 5 connected fresh)
      (kept_record plain around "k" 6 requested one ∷ []) two-Written

verify_segment-IsChained_example :
    (lines : List (List ℕ)) × ((split_lines two.contents ≡ some lines)
      × IsChained plain around "k" initial_hash lines (
          kept_record plain around "k" 5 connected fresh
          ∷ kept_record plain around "k" 6 requested one
          ∷ []))
verify_segment-IsChained_example =
    verify_segment-IsChained plain around "k" two.contents
      (kept_record plain around "k" 5 connected fresh
        ∷ kept_record plain around "k" 6 requested one
        ∷ [])
      Written-verified_example.0
