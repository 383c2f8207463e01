-- ===== src/Audit/SegmentLaws.antt =====
-- apps/broker/src/audit.ts: what `record` wrote into a segment verifies, and is what the manifest says.
use tabgrant.Common.{
  ℕ, suc, ◌+◌, ◌≡◌, refl, sym, ap, ◌∙◌, subst, String, true, false, ◌&&◌, List, [], ◌∷◌, ◌++◌, some,
  inl, inr, arith, Bool-cases, ltb, ===_refl, length, length-append, any, or_else,
}
use tabgrant.Protocol.Platform.{Platform}
use tabgrant.Protocol.Text.{codes, digest_schema}
use tabgrant.Broker.Records.{AuditEvent}
use tabgrant.Broker.Capability.{hex_bytes}
use tabgrant.Broker.Signature.{same_bytes_refl}
use tabgrant.Audit.Record.{
  initial_hash, record_schema, Persisted, persisted_schema, sign_record, persisted_json,
  hashes_equal, persist,
}
use tabgrant.Audit.Segment.{
  split_lines, is_blank, Surroundings, hash_after, Entry, Active, fresh, appended, count_of,
  first_of, record_fits, verify_lines, verify_segment, serialize_record, kept_record, extended,
  append_record, manifest_segment,
}
use tabgrant.Audit.LineLaws.{
  breaks, split_lines-append, split_lines-line, any-append_blank, verify_lines-snoc, verified_file,
}

-- The line of a record reads back as the record, is not empty and has no line feed.
pub record IsReadable (p : Platform) (s : Surroundings) (r : Persisted) : Type 0 where
  pub reads : s.parse (s.utf8 (persisted_json p r)) ≡ some r
  pub one_line : breaks (s.utf8 (persisted_json p r)) ≡ false
  pub not_empty : is_blank (s.utf8 (persisted_json p r)) ≡ false

-- A segment's fields agree with its file, which holds the records.
record IsFaithful (p : Platform) (s : Surroundings) (key name : String) (st : Active)
    (r : Persisted) (rs : List Persisted) : Type 0 where
  lines : List (List ℕ)
  split : split_lines st.contents ≡ some lines
  full : any is_blank lines ≡ false
  verified : verify_lines p s key initial_hash lines ≡ some (r ∷ rs)
  previous : st.previous_hash ≡ hash_after r.hash rs
  digest : digest_schema st.previous_hash ≡ true
  created_at : ℕ
  created : st.segment_created_at ≡ some created_at
  dated : s.iso_text created_at ≡ r.timestamp
  size : st.segment_bytes ≡ length st.contents
  entry : st.entry ≡ some (manifest_segment p s key name st.contents r rs)

-- What `record` writes into a new segment, with lines that read back.
module _ (p : Platform) (s : Surroundings) (key : String) (max_bytes : ℕ) (name : String) where
  pub data Written : Active → Persisted → List Persisted → Type 0 where
    first :
        (now : ℕ) (e : AuditEvent) (st : Active)
        → IsReadable p s (kept_record p s key now e fresh)
        → append_record p s key max_bytes name now e fresh ≡ appended st
        → Written st (kept_record p s key now e fresh) []
    next :
        (now : ℕ) (e : AuditEvent) (st st' : Active) (r : Persisted) (rs : List Persisted)
        → Written st r rs
        → IsReadable p s (kept_record p s key now e st)
        → append_record p s key max_bytes name now e st ≡ appended st'
        → Written st' r (rs ++ kept_record p s key now e st ∷ [])

  append_record-appended :
      (now : ℕ) (e : AuditEvent) (st st' : Active)
      → append_record p s key max_bytes name now e st ≡ appended st'
      → (record_schema e ≡ true)
        × (extended p s key name now (kept_record p s key now e st) st ≡ st')
  unfolding append_record
  append_record-appended now e st st' is =
      let line = serialize_record p s key (kept_record p s key now e st) in
      elim (Bool-cases (record_schema e)) [
        | inr bad ↦ absurd (cc (rw (append_record, bad) at is))
        | inl good ↦ elim (Bool-cases (ltb max_bytes (length line))) [
          | inl long ↦ absurd (cc (rw (append_record, good, long) at is))
          | inr short ↦
              elim (Bool-cases
                (ltb 0 st.segment_bytes && ltb max_bytes (st.segment_bytes + length line))) [
                  | inl full ↦ absurd (cc (rw (append_record, good, short, full) at is))
                  | inr room ↦ (good, cc (rw (append_record, good, short, room) at is))
                ]
        ]
      ]

hash_after-snoc :
    (previous : String) (rs : List Persisted) (k : Persisted)
    → hash_after previous (rs ++ k ∷ []) ≡ k.hash
hash_after-snoc previous [] k = refl
hash_after-snoc previous (r ∷ rs) k = hash_after-snoc r.hash rs k

Entry-equal :
    (file digest : String) (c d : String) (m n : ℕ) (i j : ℕ) (a b x y : String)
    → c ≡ d
    → m ≡ n
    → i ≡ j
    → a ≡ b
    → x ≡ y
    → ◌≡◌ {A = Entry}
        (record {
          file = file;
          created_at = c;
          bytes = m;
          record_count = i;
          first_hash = a;
          last_hash = x;
          sha256 = digest;
        })
        (record {
          file = file;
          created_at = d;
          bytes = n;
          record_count = j;
          first_hash = b;
          last_hash = y;
          sha256 = digest;
        })
Entry-equal file digest c d m n i j a b x y h₁ h₂ h₃ h₄ h₅ = cc

module _ (p : Platform) (s : Surroundings) (key name : String) where
  extended-first :
      (now : ℕ) (e : AuditEvent)
      → (extended p s key name now (kept_record p s key now e fresh) fresh).entry
        ≡ some (
            manifest_segment p s key name
              (extended p s key name now (kept_record p s key now e fresh) fresh).contents
              (kept_record p s key now e fresh)
              [])
  unfolding extended manifest_segment persist
  extended-first now e =
      ap some (Entry-equal _ _ _ _ _ _ _ _ _ _ _ _ refl (omega arith) refl refl refl)

  extended-entry :
      (now t : ℕ) (k : Persisted) (st : Active) (r : Persisted) (rs : List Persisted)
      → st.segment_created_at ≡ some t
      → s.iso_text t ≡ r.timestamp
      → st.segment_bytes ≡ length st.contents
      → st.entry ≡ some (manifest_segment p s key name st.contents r rs)
      → (extended p s key name now k st).entry
        ≡ some (
            manifest_segment p s key name
              (extended p s key name now k st).contents
              r
              (rs ++ k ∷ []))
  unfolding extended manifest_segment
  extended-entry now t k st r rs created dated size entry =
      let line = length-append st.contents (serialize_record p s key k) in
      let more = length-append rs (k ∷ []) in
      let date : s.iso_text (or_else st.segment_created_at now) ≡ r.timestamp =
        ap (λ o. s.iso_text (or_else o now)) created ∙ dated in
      let count : count_of st.entry ≡ suc (length rs) = ap count_of entry in
      let head : first_of k.hash st.entry ≡ r.hash = ap (first_of k.hash) entry in
      ap some (
        Entry-equal _ _ _ _ _ _ _ _ _ _ _ _ date (omega (arith, line, size))
          (omega (arith, count, more)) head (sym (hash_after-snoc r.hash rs k)))

module _ (p : Platform) (s : Surroundings) (key : String) (max_bytes : ℕ) (name : String)
    (digests : (k text : String) → digest_schema (Platform.hmac_sha256_hex p k text) ≡ true)
    (dates : (n : ℕ) → s.is_timestamp (s.iso_text n) ≡ true) where
  kept-record_fits :
      (now : ℕ) (e : AuditEvent) (st : Active)
      → record_schema e ≡ true
      → digest_schema st.previous_hash ≡ true
      → record_fits p s key st.previous_hash (kept_record p s key now e st) ≡ true
  unfolding record_fits persisted_schema hashes_equal persist sign_record
  kept-record_fits now e st good digest =
      let hash = sign_record p key e (s.iso_text now) st.previous_hash in
      let mac : digest_schema hash ≡ true = digests key _ in
      let same = ===_refl st.previous_hash in
      let equal = same_bytes_refl (hex_bytes (codes hash)) in
      rw (good, dates now, digest, mac, same, equal) refl

  first-IsFaithful :
      (now : ℕ) (e : AuditEvent)
      → record_schema e ≡ true
      → IsReadable p s (kept_record p s key now e fresh)
      → IsFaithful p s key name
          (extended p s key name now (kept_record p s key now e fresh) fresh)
          (kept_record p s key now e fresh)
          []
  unfolding extended serialize_record manifest_segment persist sign_record verify_lines
      digest_schema
  first-IsFaithful now e good line =
      let k = kept_record p s key now e fresh in
      let text = s.utf8 (persisted_json p k) in
      record {
        lines = text ∷ [];
        split = split_lines-line text line.one_line;
        full = rw line.not_empty refl;
        verified =
            verify_lines-snoc p s key initial_hash [] text [] k refl line.reads
              (kept-record_fits now e fresh good refl);
        previous = refl;
        digest = digests key _;
        created_at = now;
        created = refl;
        dated = refl;
        size = omega arith;
        entry = extended-first p s key name now e;
      }

  next-IsFaithful :
      (now : ℕ) (e : AuditEvent) (st : Active) (r : Persisted) (rs : List Persisted)
      → record_schema e ≡ true
      → IsReadable p s (kept_record p s key now e st)
      → IsFaithful p s key name st r rs
      → IsFaithful p s key name
          (extended p s key name now (kept_record p s key now e st) st)
          r
          (rs ++ kept_record p s key now e st ∷ [])
  unfolding extended serialize_record manifest_segment persist sign_record
  next-IsFaithful now e st r rs good line h =
      let k = kept_record p s key now e st in
      let text = s.utf8 (persisted_json p k) in
      record {
        lines = h.lines ++ text ∷ [];
        split =
            split_lines-append st.contents (text ++ 10 ∷ []) h.lines (text ∷ []) h.split
              (split_lines-line text line.one_line);
        full = any-append_blank h.lines text h.full line.not_empty;
        verified =
            verify_lines-snoc p s key initial_hash h.lines text (r ∷ rs) k h.verified line.reads (
              subst (λ x. record_fits p s key x k ≡ true) h.previous
                (kept-record_fits now e st good h.digest));
        previous = sym (hash_after-snoc r.hash rs k);
        digest = digests key _;
        created_at = h.created_at;
        created = ap (λ o. some (or_else o now)) h.created;
        dated = h.dated;
        size =
            let longer = length-append st.contents (text ++ 10 ∷ []) in
            let old = h.size in omega arith;
        entry =
            extended-entry p s key name now h.created_at k st r rs h.created h.dated h.size h.entry;
      }

  Written-IsFaithful :
      (st : Active) (r : Persisted) (rs : List Persisted)
      → Written p s key max_bytes name st r rs
      → IsFaithful p s key name st r rs
  Written-IsFaithful _ _ _ (first now e st line is) =
      let (good, same) = append_record-appended p s key max_bytes name now e fresh st is in
      subst (λ x. IsFaithful p s key name x (kept_record p s key now e fresh) []) same
        (first-IsFaithful now e good line)
  Written-IsFaithful _ _ _ (next now e st st' r rs before line is) =
      let (good, same) = append_record-appended p s key max_bytes name now e st st' is in
      subst (λ x. IsFaithful p s key name x r (rs ++ kept_record p s key now e st ∷ [])) same
        (next-IsFaithful now e st r rs good line (Written-IsFaithful st r rs before))

  -- If SHA-256 signatures are 64 hexadecimal digits and the clock's texts are dates: the file of a new segment into
  -- which some records were written, each in a line that reads back as the record, is not empty and has no line
  -- feed, verifies as just these records, and the entry that the logger keeps for its manifest is the one that
  -- is made from the verified file.
  pub Written-verified :
      (st : Active) (r : Persisted) (rs : List Persisted)
      → Written p s key max_bytes name st r rs
      → (verify_segment p s key st.contents ≡ some (r ∷ rs))
        × (st.entry ≡ some (manifest_segment p s key name st.contents r rs))
  Written-verified st r rs written =
      let h = Written-IsFaithful st r rs written in
      (verified_file p s key st.contents h.lines r rs h.split h.full h.verified, h.entry)
