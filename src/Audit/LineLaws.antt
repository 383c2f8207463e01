-- ===== src/Audit/LineLaws.antt =====
-- apps/broker/src/audit.ts: a line behind the lines of a segment, and a record behind its records.
use tabgrant.Common.{
  ℕ, ◌≡◌, refl, ap, String, Bool, true, false, List, [], ◌∷◌, ◌++◌, Option, none, some, inl, inr,
  arith, Bool-cases, Option-cases, ◌==◌, any,
}
use tabgrant.Protocol.Platform.{Platform}
use tabgrant.Audit.Record.{initial_hash, Persisted}
use tabgrant.Audit.Segment.{
  before_line, blank_line, split_lines, is_blank, Surroundings, after_record, hash_after,
  record_fits, verify_lines, verify_segment,
}

-- A line feed is in a text.
abbrev pub breaks : List ℕ → Bool
breaks = any (λ c. c == 10)

before_line-append :
    (c : ℕ) (o : Option (List (List ℕ))) (ls ms : List (List ℕ))
    → before_line c o ≡ some ls
    → (ks : List (List ℕ)) × ((o ≡ some ks) × (before_line c (some (ks ++ ms)) ≡ some (ls ++ ms)))
before_line-append c none ls ms e = absurd (cc)
before_line-append c (some []) ls ms e = absurd (cc)
before_line-append c (some (k ∷ ks)) ls ms e =
    let is : (c ∷ k) ∷ ks ≡ ls = cc in (k ∷ ks, (refl, ap (λ x. some (x ++ ms)) is))

pub split_lines-append :
    (xs ys : List ℕ) (ls ms : List (List ℕ))
    → split_lines xs ≡ some ls
    → split_lines ys ≡ some ms
    → split_lines (xs ++ ys) ≡ some (ls ++ ms)
unfolding split_lines
split_lines-append [] ys ls ms e f = let is : [] ≡ ls = cc in rw (f, ← is) refl
split_lines-append (c ∷ xs) ys ls ms e f = elim (Bool-cases (c == 10)) [
  | inr other ↦
      let e' : before_line c (split_lines xs) ≡ some ls = rw other at e in
      let (ks, (before, after)) = before_line-append c (split_lines xs) ls ms e' in
      rw (other, split_lines-append xs ys ks ms before f) after
  | inl feed ↦
      let e' : blank_line (split_lines xs) ≡ some ls = rw feed at e in
      elim (Option-cases (split_lines xs)) [
        | inl open' ↦ absurd (cc (rw open' at e'))
        | inr (ks, shut) ↦
            let is : [] ∷ ks ≡ ls = cc (rw shut at e') in
            rw (feed, split_lines-append xs ys ks ms shut f, ← is) refl
      ]
]

pub split_lines-line : (l : List ℕ) → breaks l ≡ false → split_lines (l ++ 10 ∷ []) ≡ some (l ∷ [])
unfolding split_lines
split_lines-line [] h = refl
split_lines-line (c ∷ l) h =
    let other : (c == 10) ≡ false = ground arith in
    rw (other, split_lines-line l (ground arith)) refl

pub any-append_blank :
    (ls : List (List ℕ)) (l : List ℕ)
    → any is_blank ls ≡ false
    → is_blank l ≡ false
    → any is_blank (ls ++ l ∷ []) ≡ false
any-append_blank [] l h k = rw k refl
any-append_blank (m ∷ ls) l h k = let later = any-append_blank ls l in ground arith

module _ (p : Platform) (s : Surroundings) (key : String) where
  pub verify_lines-snoc :
      (previous : String) (ls : List (List ℕ)) (l : List ℕ) (rs : List Persisted) (k : Persisted)
      → verify_lines p s key previous ls ≡ some rs
      → s.parse l ≡ some k
      → record_fits p s key (hash_after previous rs) k ≡ true
      → verify_lines p s key previous (ls ++ l ∷ []) ≡ some (rs ++ k ∷ [])
  unfolding verify_lines
  verify_lines-snoc previous [] l rs k e f g =
      let is : [] ≡ rs = cc in
      let g' : record_fits p s key previous k ≡ true = rw (← is) at g in rw (f, g', ← is) refl
  verify_lines-snoc previous (m ∷ ls) l rs k e f g = elim (Option-cases (s.parse m)) [
    | inl bad ↦ absurd (cc (rw (bad, verify_lines) at e))
    | inr (r, read) ↦ elim (Bool-cases (record_fits p s key previous r)) [
      | inr unfit ↦ absurd (cc (rw (read, verify_lines, unfit) at e))
      | inl fits ↦
          let e' : after_record r (verify_lines p s key r.hash ls) ≡ some rs =
            rw (read, verify_lines, fits) at e in
          elim (Option-cases (verify_lines p s key r.hash ls)) [
            | inl bad ↦ absurd (cc (rw bad at e'))
            | inr (ks, good) ↦
                let is : r ∷ ks ≡ rs = cc (rw good at e') in
                let g' : record_fits p s key (hash_after r.hash ks) k ≡ true = rw (← is) at g in
                rw (read, verify_lines, fits, verify_lines-snoc r.hash ls l ks k good f g', ← is)
                  refl
          ]
    ]
  ]

  pub verified_file :
      (file : List ℕ) (lines : List (List ℕ)) (r : Persisted) (rs : List Persisted)
      → split_lines file ≡ some lines
      → any is_blank lines ≡ false
      → verify_lines p s key initial_hash lines ≡ some (r ∷ rs)
      → verify_segment p s key file ≡ some (r ∷ rs)
  unfolding verify_segment split_lines verify_lines
  verified_file [] lines r rs e f g =
      let is : [] ≡ lines = cc in
      let g' : verify_lines p s key initial_hash [] ≡ some (r ∷ rs) = rw (← is) at g in absurd (cc)
  verified_file (c ∷ cs) lines r rs e f g = rw (e, f) g
