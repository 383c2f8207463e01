-- ===== src/Audit/Segment.antt =====
-- apps/broker/src/audit.ts: the check of a segment's file, the active segment as `record` extends it, and the
-- entry of the manifest. The bytes of a text and `JSON.parse` of a line are parameters.
use tabgrant.Common.{
  ℕ, ◌+◌, String, Bool, true, false, not, ◌&&◌, List, [], ◌∷◌, ◌++◌, Option, none, some, ltb, ◌==◌,
  ◌===◌, if◌then◌else◌, length, any, or_else,
}
use tabgrant.Protocol.Platform.{Platform}
use tabgrant.Broker.Records.{AuditEvent}
use tabgrant.Audit.Record.{
  initial_hash, record_schema, Persisted, persisted_schema, sign_record, persisted_json,
  hashes_equal, persist,
}

abbrev pub before_line : ℕ → Option (List (List ℕ)) → Option (List (List ℕ))
before_line c none = none
before_line c (some []) = none
before_line c (some (l ∷ ls)) = some ((c ∷ l) ∷ ls)

abbrev pub blank_line : Option (List (List ℕ)) → Option (List (List ℕ))
blank_line none = none
blank_line (some ls) = some ([] ∷ ls)

-- The lines of a text, `none` if it does not end with a line feed.
unfoldable pub split_lines : List ℕ → Option (List (List ℕ))
split_lines [] = some []
split_lines (c ∷ cs) =
    let rest = split_lines cs in if c == 10 then blank_line rest else before_line c rest

abbrev pub is_blank : List ℕ → Bool
is_blank [] = true
is_blank (c ∷ cs) = false

-- What the log takes from its surroundings: the schema of dates, the text of a time, the bytes of a text, the
-- reading of a line (UTF-8, JSON and the shape of a record), and the digest of a file.
pub record Surroundings : Type 0 where
  pub is_timestamp : String → Bool
  pub iso_text : ℕ → String
  pub utf8 : String → List ℕ
  pub parse : List ℕ → Option Persisted
  pub sha256 : List ℕ → String

abbrev pub after_record : Persisted → Option (List Persisted) → Option (List Persisted)
after_record r none = none
after_record r (some rs) = some (r ∷ rs)

-- The hash that the record behind some records has to name.
abbrev pub hash_after : String → List Persisted → String
hash_after previous [] = previous
hash_after previous (r ∷ rs) = hash_after r.hash rs

-- `AuditManifestSegment` of the active segment.
pub record Entry : Type 0 where
  pub file : String
  pub created_at : String
  pub bytes : ℕ
  pub record_count : ℕ
  pub first_hash : String
  pub last_hash : String
  pub sha256 : String

-- The fields of the logger for the active segment, its entry of the map, and its file.
pub record Active : Type 0 where
  pub previous_hash : String
  pub segment_created_at : Option ℕ
  pub segment_bytes : ℕ
  pub entry : Option Entry
  pub contents : List ℕ

-- `resetActiveSegment`, with no file.
abbrev pub fresh : Active
fresh = record {
  previous_hash = initial_hash;
  segment_created_at = none;
  segment_bytes = 0;
  entry = none;
  contents = [];
}

pub data Recorded : Type 0 where
  invalid too_long must_rotate : Recorded
  appended : Active → Recorded

abbrev pub count_of : Option Entry → ℕ
count_of none = 0
count_of (some e) = e.record_count

abbrev pub first_of : String → Option Entry → String
first_of hash none = hash
first_of hash (some e) = e.first_hash

module _ (p : Platform) (s : Surroundings) (key : String) where
  -- The guards of the loop of `verifySegment`.
  unfoldable pub record_fits : String → Persisted → Bool
  record_fits previous r =
      persisted_schema s.is_timestamp r
      && (r.previous_hash === previous)
      && hashes_equal r.hash (sign_record p key r.record_of r.timestamp r.previous_hash)

  unfoldable pub verify_lines : String → List (List ℕ) → Option (List Persisted)
  unfolding record_fits
  verify_lines previous [] = some []
  verify_lines previous (l ∷ ls) = elim (s.parse l) [
    | none ↦ none
    | some r ↦ if record_fits previous r then after_record r (verify_lines r.hash ls) else none
  ]

  abbrev pub verify_split : Option (List (List ℕ)) → Option (List Persisted)
  verify_split none = none
  verify_split (some ls) = if any is_blank ls then none else verify_lines initial_hash ls

  -- `verifySegment`: `none` is an exception.
  unfoldable pub verify_segment : List ℕ → Option (List Persisted)
  unfolding verify_lines split_lines
  verify_segment [] = none
  verify_segment (c ∷ cs) = verify_split (split_lines (c ∷ cs))

  -- `serializeRecord`
  unfoldable pub serialize_record : Persisted → List ℕ
  serialize_record r = s.utf8 (persisted_json p r) ++ 10 ∷ []

  abbrev pub kept_record : ℕ → AuditEvent → Active → Persisted
  kept_record now r st = persist p key (s.iso_text now) st.previous_hash r

  -- The fields after the line of a record is appended to the file.
  unfoldable pub extended : String → ℕ → Persisted → Active → Active
  unfolding serialize_record
  extended name now kept st =
      let created = or_else st.segment_created_at now in
      let size = st.segment_bytes + length (serialize_record kept) in
      let file = st.contents ++ serialize_record kept in
      record {
        previous_hash = kept.hash;
        segment_created_at = some created;
        segment_bytes = size;
        entry = some (record {
          file = name;
          created_at = s.iso_text created;
          bytes = size;
          record_count = count_of st.entry + 1;
          first_hash = first_of kept.hash st.entry;
          last_hash = kept.hash;
          sha256 = s.sha256 file;
        });
        contents = file;
      }

  -- `record` from the validation on, where no segment expires and the file system obeys: a line that does not
  -- fit goes to a new segment (`must_rotate`).
  unfoldable pub append_record : ℕ → String → ℕ → AuditEvent → Active → Recorded
  unfolding extended
  append_record max_bytes name now r st =
      let line = serialize_record (kept_record now r st) in
      if not (record_schema r)
      then invalid
      else if ltb max_bytes (length line)
      then too_long
      else if ltb 0 st.segment_bytes && ltb max_bytes (st.segment_bytes + length line)
      then must_rotate
      else appended (extended name now (kept_record now r st) st)

  -- `manifestSegment` on a loaded segment, whose records are not empty.
  unfoldable pub manifest_segment : String → List ℕ → Persisted → List Persisted → Entry
  manifest_segment name contents r rs = record {
    file = name;
    created_at = r.timestamp;
    bytes = length contents;
    record_count = length (r ∷ rs);
    first_hash = r.hash;
    last_hash = hash_after r.hash rs;
    sha256 = s.sha256 contents;
  }
