-- ===== src/Wire/LineLaws.antt =====
-- The line decoder of apps/broker/src/wire.ts reads back what peers send, however the stream is cut, and
-- keeps a bounded buffer.
use tabgrant.Common.{
  ℕ, ◌≤◌, ◌<◌, ◌==◌, ◌≡◌, refl, sym, ap, ◌∙◌, true, false, List, [], ◌∷◌, ◌++◌, append_assoc,
  Option, none, some, inl, inr, length, length-append, ltb, arith, All, Bool-cases, Option-cases,
}
use tabgrant.Broker.Constants.{max_message_bytes}
use tabgrant.Wire.Stream.{
  StreamError, message_too_large, malformed_json, short, refused, frame, Next-cases, done, prepend,
  IsFraming, drain, drain-frame, drain-short, drain-refused, drain-settled, Drained-cases,
}
use tabgrant.Wire.Chunks.{concat, feed, feed-drain}
use tabgrant.Wire.Lines.{cut_line, with_byte, take_line, next_line, push_line, send_line}

cut_line-append :
    (b c line rest : List ℕ)
    → cut_line b ≡ some (line, rest)
    → cut_line (b ++ c) ≡ some (line, rest ++ c)
unfolding cut_line
cut_line-append [] c line rest e = absurd (cc)
cut_line-append (x ∷ xs) c line rest e = elim (Bool-cases (x == 10)) [
  | inl ends ↦
      let e' = rw ends at e in
      let before : [] ≡ line = cc in
      let behind : xs ≡ rest = cc in rw (ends, ← before, ← behind) refl
  | inr goes ↦ elim (Option-cases (cut_line xs)) [
    | inl nothing ↦ absurd (cc (rw (goes, nothing) at e))
    | inr ((l, r), there) ↦
        let e' = rw (goes, there) at e in
        let before : x ∷ l ≡ line = cc in
        let behind : r ≡ rest = cc in
        rw (goes, cut_line-append xs c l r there, ← before, ← behind) refl
  ]
]

-- The rest of a cut buffer is shorter than the buffer.
cut_line-length : (b line rest : List ℕ) → cut_line b ≡ some (line, rest) → length rest < length b
unfolding cut_line
cut_line-length [] line rest e = absurd (cc)
cut_line-length (x ∷ xs) line rest e = elim (Bool-cases (x == 10)) [
  | inl ends ↦ let behind : xs ≡ rest = cc (rw ends at e) in rw (← behind) (omega arith)
  | inr goes ↦ elim (Option-cases (cut_line xs)) [
    | inl nothing ↦ absurd (cc (rw (goes, nothing) at e))
    | inr ((l, r), there) ↦
        let behind : r ≡ rest = cc (rw (goes, there) at e) in
        rw (← behind) (omega (arith, cut_line-length xs l r there))
  ]
]

with_byte-none : (x : ℕ) (o : Option (List ℕ × List ℕ)) → with_byte x o ≡ none → o ≡ none
with_byte-none x none e = refl
with_byte-none x (some (line, rest)) e = absurd (cc)

-- A line that ends in later bytes holds the whole buffer.
cut_line-late :
    (b c line rest : List ℕ)
    → cut_line b ≡ none
    → cut_line (b ++ c) ≡ some (line, rest)
    → length b ≤ length line
unfolding cut_line
cut_line-late [] c line rest s e = omega arith
cut_line-late (x ∷ xs) c line rest s e = elim (Bool-cases (x == 10)) [
  | inl ends ↦ absurd (cc (rw ends at s))
  | inr goes ↦
      let s' : cut_line xs ≡ none = with_byte-none x (cut_line xs) (rw goes at s) in
      elim (Option-cases (cut_line (xs ++ c))) [
        | inl nothing ↦ absurd (cc (rw (goes, nothing) at e))
        | inr ((l, r), there) ↦
            let before : x ∷ l ≡ line = cc (rw (goes, there) at e) in
            rw (← before) (omega (arith, cut_line-late xs c l r s' there))
      ]
]

-- A text without a line feed, and one behind it.
cut_line-ended : (b c : List ℕ) → cut_line b ≡ none → cut_line (b ++ 10 ∷ c) ≡ some (b, c)
unfolding cut_line
cut_line-ended [] c s = refl
cut_line-ended (x ∷ xs) c s = elim (Bool-cases (x == 10)) [
  | inl ends ↦ absurd (cc (rw ends at s))
  | inr goes ↦ rw (goes, cut_line-ended xs c (with_byte-none x (cut_line xs) (rw goes at s))) refl
]

module _ {V : Type 0} (parse : List ℕ → Option V) where
  next_line-cut :
      (b line rest : List ℕ)
      → cut_line b ≡ some (line, rest)
      → next_line parse b ≡ take_line parse line rest
  unfolding next_line
  next_line-cut b line rest e = rw (next_line, e) refl

  next_line-uncut : (b : List ℕ) → cut_line b ≡ none → next_line parse b ≡ short
  unfolding next_line
  next_line-uncut b e = rw (next_line, e) refl

  -- Where a value comes from.
  take_line-frame :
      (line rest left : List ℕ) (o : Option V)
      → take_line parse line rest ≡ frame o left
      → (rest ≡ left)
        × (length line ≤ max_message_bytes)
        × ((c : List ℕ) → take_line parse line c ≡ frame o c)
  take_line-frame line rest left o e = elim (Bool-cases (ltb max_message_bytes (length line))) [
    | inl long ↦ absurd (cc (rw long at e))
    | inr fits ↦ elim (Bool-cases (ltb 0 (length line))) [
      | inr blank ↦
          let e' = rw (fits, blank) at e in
          let is : none ≡ o = cc in (cc, ground arith, λ c. rw (fits, blank, ← is) refl)
      | inl full ↦ elim (Option-cases (parse line)) [
        | inl bad ↦ absurd (cc (rw (fits, full, bad) at e))
        | inr (v, good) ↦
            let e' = rw (fits, full, good) at e in
            let is : some v ≡ o = cc in (cc, ground arith, λ c. rw (fits, full, good, ← is) refl)
      ]
    ]
  ]

  take_line-refused :
      (line rest left : List ℕ) (y : StreamError)
      → take_line parse line rest ≡ refused y left
      → (rest ≡ left) × ((c : List ℕ) → take_line parse line c ≡ refused y c)
  take_line-refused line rest left y e = elim (Bool-cases (ltb max_message_bytes (length line))) [
    | inl long ↦
        let e' = rw long at e in
        let is : message_too_large ≡ y = cc in (cc, λ c. rw (long, ← is) refl)
    | inr fits ↦ elim (Bool-cases (ltb 0 (length line))) [
      | inr blank ↦ absurd (cc (rw (fits, blank) at e))
      | inl full ↦ elim (Option-cases (parse line)) [
        | inr (v, good) ↦ absurd (cc (rw (fits, full, good) at e))
        | inl bad ↦
            let e' = rw (fits, full, bad) at e in
            let is : malformed_json ≡ y = cc in (cc, λ c. rw (fits, full, bad, ← is) refl)
      ]
    ]
  ]

  take_line-unshort : (line rest : List ℕ) → take_line parse line rest ≡ short → ⊥
  take_line-unshort line rest e = elim (Bool-cases (ltb max_message_bytes (length line))) [
    | inl long ↦ cc (rw long at e)
    | inr fits ↦ elim (Bool-cases (ltb 0 (length line))) [
      | inr blank ↦ cc (rw (fits, blank) at e)
      | inl full ↦ elim (Option-cases (parse line)) [
        | inl bad ↦ cc (rw (fits, full, bad) at e)
        | inr (v, good) ↦ cc (rw (fits, full, good) at e)
      ]
    ]
  ]

  next_line-short : (b : List ℕ) → next_line parse b ≡ short → cut_line b ≡ none
  next_line-short b e = elim (Option-cases (cut_line b)) [
    | inl nothing ↦ nothing
    | inr ((line, rest), there) ↦
        absurd (take_line-unshort line rest (sym (next_line-cut b line rest there) ∙ e))
  ]

  next_line-IsFraming : IsFraming (next_line parse)
  unfolding next_line cut_line
  next_line-IsFraming = record {
    empty = refl;
    extends = λ b c left o e. elim (Option-cases (cut_line b)) [
      | inl nothing ↦ absurd (cc (next_line-uncut b nothing))
      | inr ((line, rest), there) ↦
          let (behind, small, reads) =
            take_line-frame line rest left o (sym (next_line-cut b line rest there) ∙ e) in
          next_line-cut (b ++ c) line (rest ++ c) (cut_line-append b c line rest there)
          ∙ reads (rest ++ c)
          ∙ ap (λ x. frame o (x ++ c)) behind
    ];
    refuses = λ b c left y e. elim (Option-cases (cut_line b)) [
      | inl nothing ↦ absurd (cc (next_line-uncut b nothing))
      | inr ((line, rest), there) ↦
          let (behind, reads) =
            take_line-refused line rest left y (sym (next_line-cut b line rest there) ∙ e) in
          next_line-cut (b ++ c) line (rest ++ c) (cut_line-append b c line rest there)
          ∙ reads (rest ++ c)
          ∙ ap (λ x. refused y (x ++ c)) behind
    ];
    shrinks = λ b left o e. elim (Option-cases (cut_line b)) [
      | inl nothing ↦ absurd (cc (next_line-uncut b nothing))
      | inr ((line, rest), there) ↦
          let (behind, small, reads) =
            take_line-frame line rest left o (sym (next_line-cut b line rest there) ∙ e) in
          rw (← behind) (cut_line-length b line rest there)
    ];
  }

  -- Whatever arrives, a push that does not fail leaves no whole line in the buffer, and at most 1 MiB in it.
  pub push_line-IsBounded :
      (b c rest : List ℕ) (vs : List V)
      → push_line parse b c ≡ done vs rest
      → (cut_line rest ≡ none) × (length rest ≤ max_message_bytes)
  unfolding push_line
  push_line-IsBounded b c rest vs e = elim (Drained-cases (drain (next_line parse) (b ++ c))) [
    | inr (x, r, bad) ↦ absurd (cc (rw bad at e))
    | inl (ws, r, good) ↦ elim (Bool-cases (ltb max_message_bytes (length r))) [
      | inl over ↦ absurd (cc (rw (good, over) at e))
      | inr fits ↦
          let is : r ≡ rest = cc (rw (good, fits) at e) in
          let settled = drain-settled (next_line parse) next_line-IsFraming (b ++ c) ws r good in
          rw (← is) (next_line-short r settled, ground arith)
    ]
  ]

  -- A buffer that can still become part of an accepted stream is small.
  remainder-small :
      (r d rest : List ℕ) (ws : List V)
      → next_line parse r ≡ short
      → drain (next_line parse) (r ++ d) ≡ done ws rest
      → length rest ≤ max_message_bytes
      → length r ≤ max_message_bytes
  remainder-small r d rest ws s e end = elim (Next-cases (next_line parse (r ++ d))) [
    | inl unfinished ↦
        let e' = sym (drain-short (next_line parse) next_line-IsFraming (r ++ d) unfinished) ∙ e in
        let is : r ++ d ≡ rest = cc in omega (arith, length-append r d, ap length is, end)
    | inr (inl (x, left, bad)) ↦
        absurd (cc (drain-refused (next_line parse) next_line-IsFraming (r ++ d) left x bad))
    | inr (inr (o, left, good)) ↦ elim (Option-cases (cut_line (r ++ d))) [
      | inl nothing ↦ absurd (cc (next_line-uncut (r ++ d) nothing))
      | inr ((line, behind), there) ↦
          let (_, small, _) =
            take_line-frame line behind left o
              (sym (next_line-cut (r ++ d) line behind there) ∙ good) in
          omega (arith, small, cut_line-late r d line behind (next_line-short r s) there)
    ]
  ]

  push_line-drain :
      (b c d : List ℕ) (vs ws : List V) (r rest : List ℕ)
      → length rest ≤ max_message_bytes
      → drain (next_line parse) (b ++ c) ≡ done vs r
      → drain (next_line parse) (r ++ d) ≡ done ws rest
      → push_line parse b c ≡ done vs r
  unfolding push_line
  push_line-drain b c d vs ws r rest end good later =
      let settled = drain-settled (next_line parse) next_line-IsFraming (b ++ c) vs r good in
      let small = remainder-small r d rest ws settled later end in
      let t : ltb max_message_bytes (length r) ≡ false = ground arith in rw (good, t) refl

All-Unit : (cs : List (List ℕ)) → All (λ _. Unit {0}) cs
All-Unit [] = tt
All-Unit (c ∷ cs) = (tt, All-Unit cs)

module _ {V : Type 0} (stringify : V → List ℕ) where
  abbrev pub joined_lines : Option (List ℕ) → Option (List ℕ) → Option (List ℕ)
  joined_lines (some b) (some bs) = some (b ++ bs)
  joined_lines _ _ = none

  -- The bytes of several messages, one behind the other.
  unfoldable pub send_all : List V → Option (List ℕ)
  send_all [] = some []
  send_all (v ∷ vs) = joined_lines (send_line stringify v) (send_all vs)

module _ {V : Type 0} (stringify : V → List ℕ) (parse : List ℕ → Option V)
    -- `JSON.parse` reads what `JSON.stringify` wrote, which is not empty and has no line feed.
    (faithful : (v : V) → parse (stringify v) ≡ some v)
    (one_line : (v : V) → cut_line (stringify v) ≡ none)
    (not_empty : (v : V) → 0 < length (stringify v)) where
  next_line-send :
      (v : V) (bytes c : List ℕ)
      → send_line stringify v ≡ some bytes
      → next_line parse (bytes ++ c) ≡ frame (some v) c
  unfolding send_line
  next_line-send v bytes c e =
      let body = stringify v in
      elim (Bool-cases (ltb max_message_bytes (length (body ++ 10 ∷ [])))) [
        | inl over ↦ absurd (cc (rw (send_line, over) at e))
        | inr fits ↦
            let is : body ++ 10 ∷ [] ≡ bytes = cc (rw (send_line, fits) at e) in
            let size = length-append body (10 ∷ []) in
            let full = not_empty v in
            let t : ltb max_message_bytes (length body) ≡ false = ground (arith, size) in
            let u : ltb 0 (length body) ≡ true = ground (arith, full) in
            let there : cut_line (bytes ++ c) ≡ some (body, c) =
              ap (λ b. cut_line (b ++ c)) (sym is)
              ∙ ap cut_line (append_assoc body (10 ∷ []) c)
              ∙ cut_line-ended body c (one_line v) in
            next_line-cut parse (bytes ++ c) body c there ∙ rw (t, u, faithful v) refl
      ]

  drain-send_all :
      (vs : List V) (stream : List ℕ)
      → send_all stringify vs ≡ some stream
      → drain (next_line parse) stream ≡ done vs []
  unfolding send_all
  drain-send_all [] stream e =
      let is : [] ≡ stream = cc in
      rw (← is) (
        drain-short (next_line parse) (next_line-IsFraming parse) []
          (next_line-IsFraming parse).empty)
  drain-send_all (v ∷ vs) stream e = elim (Option-cases (send_line stringify v)) [
    | inl over ↦ absurd (cc (rw (send_all, over) at e))
    | inr (bytes, one) ↦ elim (Option-cases (send_all stringify vs)) [
      | inl over ↦ absurd (cc (rw (send_all, one, over) at e))
      | inr (more, others) ↦
          let is : bytes ++ more ≡ stream = cc (rw (send_all, one, others) at e) in
          rw (← is) (
            drain-frame (next_line parse) (next_line-IsFraming parse) (bytes ++ more) more (some v)
              (next_line-send v bytes more one)
            ∙ ap (prepend (some v)) (drain-send_all vs more others))
    ]
  ]

  -- If `JSON.parse` reads what `JSON.stringify` wrote, which is not empty and has no line feed: however the bytes
  -- of some sent messages are cut into chunks of any size, the decoder returns just these messages, in order,
  -- without an error, and has nothing left.
  pub feed-send_all :
      (vs : List V) (stream : List ℕ) (chunks : List (List ℕ))
      → send_all stringify vs ≡ some stream
      → concat chunks ≡ stream
      → feed (push_line parse) [] chunks ≡ record { values = vs; buffer = []; error = none }
  feed-send_all vs stream chunks written cut =
      feed-drain (next_line parse) (next_line-IsFraming parse) (push_line parse) (λ _. Unit {0})
        (λ rest. length rest ≤ max_message_bytes)
        (λ b c d us ws r rest _ _ end good later.
          push_line-drain parse b c d us ws r rest end good later)
        [] chunks vs [] (next_line-IsFraming parse).empty (All-Unit chunks) (omega arith)
        (rw cut (drain-send_all vs stream written))
