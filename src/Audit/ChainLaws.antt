-- ===== src/Audit/ChainLaws.antt =====
-- apps/broker/src/audit.ts: what a segment that verifies is known to be.
use tabgrant.Common.{
  ℕ, ◌≡◌, refl, String, true, List, [], ◌∷◌, Option, none, some, inl, inr, arith, Bool-cases,
  Option-cases, ===_iff, any,
}
use tabgrant.Protocol.Platform.{Platform}
use tabgrant.Protocol.Text.{codes}
use tabgrant.Broker.Capability.{hex_bytes}
use tabgrant.Broker.Signature.{same_bytes_sound}
use tabgrant.Audit.Record.{initial_hash, Persisted, persisted_schema, sign_record, hashes_equal}
use tabgrant.Audit.Segment.{
  split_lines, is_blank, Surroundings, after_record, record_fits, verify_lines, verify_split,
  verify_segment,
}

module _ (p : Platform) (s : Surroundings) (key : String) where
  -- A record that stands in its place of the chain with its own signature.
  pub record IsLinked (previous : String) (r : Persisted) : Type 0 where
    pub shaped : persisted_schema s.is_timestamp r ≡ true
    pub follows : r.previous_hash ≡ previous
    pub signed :
        hex_bytes (codes r.hash)
        ≡ hex_bytes (codes (sign_record p key r.record_of r.timestamp r.previous_hash))

  -- Each line is a record that names the hash of the record before it.
  abbrev pub IsChained : String → List (List ℕ) → List Persisted → Type 0
  IsChained previous [] [] = Unit
  IsChained previous [] (r ∷ rs) = ⊥
  IsChained previous (l ∷ ls) [] = ⊥
  IsChained previous (l ∷ ls) (r ∷ rs) =
      (s.parse l ≡ some r) × (IsLinked previous r × IsChained r.hash ls rs)

  record_fits-IsLinked :
      (previous : String) (r : Persisted)
      → record_fits p s key previous r ≡ true
      → IsLinked previous r
  unfolding record_fits hashes_equal
  record_fits-IsLinked previous r e = record {
    shaped = ground arith;
    follows = (===_iff r.previous_hash previous).0 (ground arith);
    signed = same_bytes_sound _ _ (ground arith);
  }

  verify_lines-IsChained :
      (previous : String) (ls : List (List ℕ)) (rs : List Persisted)
      → verify_lines p s key previous ls ≡ some rs
      → IsChained previous ls rs
  unfolding verify_lines
  verify_lines-IsChained previous [] [] e = tt
  verify_lines-IsChained previous [] (r ∷ rs) e = absurd (cc)
  verify_lines-IsChained previous (l ∷ ls) rs e = elim (Option-cases (s.parse l)) [
    | inl bad ↦ absurd (cc (rw (bad, verify_lines) at e))
    | inr (r, read) ↦ elim (Bool-cases (record_fits p s key previous r)) [
      | inr unfit ↦ absurd (cc (rw (read, verify_lines, unfit) at e))
      | inl fits ↦
          let e' : after_record r (verify_lines p s key r.hash ls) ≡ some rs =
            rw (read, verify_lines, fits) at e in
          elim (Option-cases (verify_lines p s key r.hash ls)) [
            | inl bad ↦ absurd (cc (rw bad at e'))
            | inr (ks, good) ↦
                let is : r ∷ ks ≡ rs = cc (rw good at e') in
                rw (← is) (
                  read,
                  (record_fits-IsLinked previous r fits, verify_lines-IsChained r.hash ls ks good),
                )
          ]
    ]
  ]

  verify_split-IsChained :
      (o : Option (List (List ℕ))) (rs : List Persisted)
      → verify_split p s key o ≡ some rs
      → (lines : List (List ℕ)) × ((o ≡ some lines) × IsChained initial_hash lines rs)
  verify_split-IsChained none rs e = absurd (cc)
  verify_split-IsChained (some ls) rs e = elim (Bool-cases (any is_blank ls)) [
    | inl blank ↦ absurd (cc (rw blank at e))
    | inr full ↦ (ls, (refl, verify_lines-IsChained initial_hash ls rs (rw full at e)))
  ]

  -- The records of a file that verifies are those of its lines, in order; the first names the initial hash and
  -- each other the hash of the one before it, and the hash of each has the bytes of the key's signature of it.
  pub verify_segment-IsChained :
      (file : List ℕ) (rs : List Persisted)
      → verify_segment p s key file ≡ some rs
      → (lines : List (List ℕ)) × ((split_lines file ≡ some lines)
          × IsChained initial_hash lines rs)
  unfolding verify_segment
  verify_segment-IsChained [] rs e = absurd (cc)
  verify_segment-IsChained (c ∷ cs) rs e = verify_split-IsChained (split_lines (c ∷ cs)) rs e
