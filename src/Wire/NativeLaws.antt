-- ===== src/Wire/NativeLaws.antt =====
-- The decoder of apps/broker/src/native-framing.ts reads back what the encoder wrote, however the stream
-- is cut, and keeps a bounded buffer.
use tabgrant.Common.{
  ℕ, ◌+◌, ◌*◌, ◌/◌, ◌%◌, ◌≤◌, ◌<◌, ◌≡◌, refl, sym, ap, ◌∙◌, true, false, List, [], ◌∷◌, ◌++◌,
  Option, none, some, inl, inr, length, length-append, length-drop, take, drop, take-append,
  drop-append, take-length-append, drop-length-append, ltb, arith, All, Bool-cases, Option-cases,
}
use tabgrant.Broker.Constants.{max_message_bytes}
use tabgrant.Wire.Stream.{
  StreamError, message_too_large, malformed_json, Next, short, refused, frame, done, prepend,
  IsFraming, drain, drain-frame, drain-short, drain-settled,
}
use tabgrant.Wire.Chunks.{concat, feed, feed-drain}
use tabgrant.Wire.Native.{write_uint32, read_uint32, encode, next_message, push}

read_uint32-write :
    (n : ℕ)
    → n < 4294967296
    → read_uint32 (n % 256) (n / 256 % 256) (n / 65536 % 256) (n / 16777216 % 256) ≡ n
unfolding read_uint32
read_uint32-write n h = omega arith

module _ {V : Type 0} (parse : List ℕ → Option V) where
  -- How the front of a buffer with four bytes is read.
  data Front (n : ℕ) (rest : List ℕ) : Type 0 where
    large : max_message_bytes < n → Front n rest
    partial' : n ≤ max_message_bytes → length rest < n → Front n rest
    garbled : n ≤ max_message_bytes → n ≤ length rest → parse (take n rest) ≡ none → Front n rest
    whole :
        n ≤ max_message_bytes
        → n ≤ length rest
        → (v : V) → parse (take n rest) ≡ some v
        → Front n rest

  Front-cases : (n : ℕ) (rest : List ℕ) → Front n rest
  Front-cases n rest = elim (Bool-cases (ltb max_message_bytes n)) [
    | inl yes' ↦ large (ground arith)
    | inr no' ↦ elim (Bool-cases (ltb (length rest) n)) [
      | inl less ↦ partial' (ground arith) (ground arith)
      | inr enough ↦ elim (Option-cases (parse (take n rest))) [
        | inl bad ↦ garbled (ground arith) (ground arith) bad
        | inr (v, good) ↦ whole (ground arith) (ground arith) v good
      ]
    ]
  ]

  front : (n : ℕ) (b rest : List ℕ) → Front n rest → Next V
  front n b rest (large h) = refused message_too_large b
  front n b rest (partial' h k) = short
  front n b rest (garbled h k e) = refused malformed_json (drop n rest)
  front n b rest (whole h k v e) = frame (some v) (drop n rest)

  next_message-front :
      (a b c d n : ℕ) (rest : List ℕ) (f : Front n rest)
      → read_uint32 a b c d ≡ n
      → next_message parse (a ∷ b ∷ c ∷ d ∷ rest) ≡ front n (a ∷ b ∷ c ∷ d ∷ rest) rest f
  unfolding next_message front
  next_message-front a b c d n rest (large h) is =
      let t : ltb max_message_bytes n ≡ true = ground arith in rw (is, t) refl
  next_message-front a b c d n rest (partial' h k) is =
      let t : ltb max_message_bytes n ≡ false = ground arith in
      let s : ltb (length rest) n ≡ true = ground arith in rw (is, t, s) refl
  next_message-front a b c d n rest (garbled h k e) is =
      let t : ltb max_message_bytes n ≡ false = ground arith in
      let s : ltb (length rest) n ≡ false = ground arith in rw (is, t, s, e) refl
  next_message-front a b c d n rest (whole h k v e) is =
      let t : ltb max_message_bytes n ≡ false = ground arith in
      let s : ltb (length rest) n ≡ false = ground arith in rw (is, t, s, e) refl

  extends-Front :
      (a b c d n : ℕ) (rest more left : List ℕ) (o : Option V)
      → Front n rest
      → read_uint32 a b c d ≡ n
      → next_message parse (a ∷ b ∷ c ∷ d ∷ rest) ≡ frame o left
      → next_message parse (a ∷ b ∷ c ∷ d ∷ (rest ++ more)) ≡ frame o (left ++ more)
  unfolding front
  extends-Front a b c d n rest more left o (large h) is e =
      absurd (cc (next_message-front a b c d n rest (large h) is))
  extends-Front a b c d n rest more left o (partial' h k) is e =
      absurd (cc (next_message-front a b c d n rest (partial' h k) is))
  extends-Front a b c d n rest more left o (garbled h k x) is e =
      absurd (cc (next_message-front a b c d n rest (garbled h k x) is))
  extends-Front a b c d n rest more left o (whole h k v x) is e =
      let reads = sym (next_message-front a b c d n rest (whole h k v x) is) ∙ e in
      let value : some v ≡ o = cc in
      let behind : drop n rest ≡ left = cc in
      rw (← value, ← behind)
        (next_message-front a b c d n (rest ++ more)
            (whole h (omega (arith, length-append rest more)) v (rw (take-append n rest more k) x))
            is
          ∙ ap (frame (some v)) (drop-append n rest more k))

  refuses-Front :
      (a b c d n : ℕ) (rest more left : List ℕ) (y : StreamError)
      → Front n rest
      → read_uint32 a b c d ≡ n
      → next_message parse (a ∷ b ∷ c ∷ d ∷ rest) ≡ refused y left
      → next_message parse (a ∷ b ∷ c ∷ d ∷ (rest ++ more)) ≡ refused y (left ++ more)
  unfolding front
  refuses-Front a b c d n rest more left y (large h) is e =
      let reads = sym (next_message-front a b c d n rest (large h) is) ∙ e in
      let error : message_too_large ≡ y = cc in
      let behind : a ∷ b ∷ c ∷ d ∷ rest ≡ left = cc in
      rw (← error, ← behind) (next_message-front a b c d n (rest ++ more) (large h) is)
  refuses-Front a b c d n rest more left y (partial' h k) is e =
      absurd (cc (next_message-front a b c d n rest (partial' h k) is))
  refuses-Front a b c d n rest more left y (garbled h k x) is e =
      let reads = sym (next_message-front a b c d n rest (garbled h k x) is) ∙ e in
      let error : malformed_json ≡ y = cc in
      let behind : drop n rest ≡ left = cc in
      rw (← error, ← behind)
        (next_message-front a b c d n (rest ++ more)
            (garbled h (omega (arith, length-append rest more)) (rw (take-append n rest more k) x))
            is
          ∙ ap (refused malformed_json) (drop-append n rest more k))
  refuses-Front a b c d n rest more left y (whole h k v x) is e =
      absurd (cc (next_message-front a b c d n rest (whole h k v x) is))

  shrinks-Front :
      (a b c d n : ℕ) (rest left : List ℕ) (o : Option V)
      → Front n rest
      → read_uint32 a b c d ≡ n
      → next_message parse (a ∷ b ∷ c ∷ d ∷ rest) ≡ frame o left
      → length left ≤ length rest
  unfolding front
  shrinks-Front a b c d n rest left o (large h) is e =
      absurd (cc (next_message-front a b c d n rest (large h) is))
  shrinks-Front a b c d n rest left o (partial' h k) is e =
      absurd (cc (next_message-front a b c d n rest (partial' h k) is))
  shrinks-Front a b c d n rest left o (garbled h k x) is e =
      absurd (cc (next_message-front a b c d n rest (garbled h k x) is))
  shrinks-Front a b c d n rest left o (whole h k v x) is e =
      let reads = sym (next_message-front a b c d n rest (whole h k v x) is) ∙ e in
      let behind : drop n rest ≡ left = cc in rw (← behind) (length-drop n rest)

  short-Front :
      (a b c d n : ℕ) (rest : List ℕ)
      → Front n rest
      → read_uint32 a b c d ≡ n
      → next_message parse (a ∷ b ∷ c ∷ d ∷ rest) ≡ short
      → length rest < max_message_bytes
  unfolding front
  short-Front a b c d n rest (large h) is e =
      absurd (cc (next_message-front a b c d n rest (large h) is))
  short-Front a b c d n rest (partial' h k) is e = omega arith
  short-Front a b c d n rest (garbled h k x) is e =
      absurd (cc (next_message-front a b c d n rest (garbled h k x) is))
  short-Front a b c d n rest (whole h k v x) is e =
      absurd (cc (next_message-front a b c d n rest (whole h k v x) is))

  next_message-extends :
      (b c rest : List ℕ) (o : Option V)
      → next_message parse b ≡ frame o rest
      → next_message parse (b ++ c) ≡ frame o (rest ++ c)
  unfolding next_message
  next_message-extends [] more left o e = absurd (cc)
  next_message-extends (a ∷ []) more left o e = absurd (cc)
  next_message-extends (a ∷ b ∷ []) more left o e = absurd (cc)
  next_message-extends (a ∷ b ∷ c ∷ []) more left o e = absurd (cc)
  next_message-extends (a ∷ b ∷ c ∷ d ∷ rest) more left o e =
      extends-Front a b c d _ rest more left o (Front-cases (read_uint32 a b c d) rest) refl e

  next_message-refuses :
      (b c rest : List ℕ) (y : StreamError)
      → next_message parse b ≡ refused y rest
      → next_message parse (b ++ c) ≡ refused y (rest ++ c)
  unfolding next_message
  next_message-refuses [] more left y e = absurd (cc)
  next_message-refuses (a ∷ []) more left y e = absurd (cc)
  next_message-refuses (a ∷ b ∷ []) more left y e = absurd (cc)
  next_message-refuses (a ∷ b ∷ c ∷ []) more left y e = absurd (cc)
  next_message-refuses (a ∷ b ∷ c ∷ d ∷ rest) more left y e =
      refuses-Front a b c d _ rest more left y (Front-cases (read_uint32 a b c d) rest) refl e

  next_message-shrinks :
      (b rest : List ℕ) (o : Option V)
      → next_message parse b ≡ frame o rest
      → length rest < length b
  unfolding next_message
  next_message-shrinks [] left o e = absurd (cc)
  next_message-shrinks (a ∷ []) left o e = absurd (cc)
  next_message-shrinks (a ∷ b ∷ []) left o e = absurd (cc)
  next_message-shrinks (a ∷ b ∷ c ∷ []) left o e = absurd (cc)
  next_message-shrinks (a ∷ b ∷ c ∷ d ∷ rest) left o e =
      omega
        (arith, shrinks-Front a b c d _ rest left o (Front-cases (read_uint32 a b c d) rest) refl e)

  -- A buffer without a whole message is small.
  next_message-short :
      (b : List ℕ) → next_message parse b ≡ short → length b < max_message_bytes + 4
  next_message-short [] e = omega arith
  next_message-short (a ∷ []) e = omega arith
  next_message-short (a ∷ b ∷ []) e = omega arith
  next_message-short (a ∷ b ∷ c ∷ []) e = omega arith
  next_message-short (a ∷ b ∷ c ∷ d ∷ rest) e =
      omega (arith, short-Front a b c d _ rest (Front-cases (read_uint32 a b c d) rest) refl e)

  next_message-IsFraming : IsFraming (next_message parse)
  unfolding next_message
  next_message-IsFraming = record {
    empty = refl;
    extends = next_message-extends;
    refuses = next_message-refuses;
    shrinks = next_message-shrinks;
  }

  -- Whatever arrives, a push that does not fail leaves no whole message in the buffer, and less than 1 MiB and
  -- four bytes in it.
  pub push-IsBounded :
      (b c rest : List ℕ) (vs : List V)
      → push parse b c ≡ done vs rest
      → (next_message parse rest ≡ short) × (length rest < max_message_bytes + 4)
  unfolding push
  push-IsBounded b c rest vs e =
      elim (Bool-cases (ltb (max_message_bytes * 2 + 8) (length (b ++ c)))) [
        | inl over ↦ absurd (cc (rw over at e))
        | inr fits ↦
            let settled =
              drain-settled (next_message parse) next_message-IsFraming (b ++ c) vs rest
                (rw fits at e) in
            (settled, next_message-short rest settled)
      ]

module _ {V : Type 0} (parse : List ℕ → Option V) where
  push-drain :
      (b c : List ℕ) (vs : List V) (rest : List ℕ)
      → next_message parse b ≡ short
      → length c ≤ max_message_bytes + 4
      → drain (next_message parse) (b ++ c) ≡ done vs rest
      → push parse b c ≡ done vs rest
  unfolding push
  push-drain b c vs rest s fits e =
      let room = next_message-short parse b s in
      let size = length-append b c in
      let t : ltb (max_message_bytes * 2 + 8) (length (b ++ c)) ≡ false = ground (arith, size) in
      rw t e

module _ {V : Type 0} (stringify : V → List ℕ) where
  -- The bytes of several messages, one behind the other.
  abbrev pub joined : Option (List ℕ) → Option (List ℕ) → Option (List ℕ)
  joined (some b) (some bs) = some (b ++ bs)
  joined _ _ = none

  unfoldable pub encode_all : List V → Option (List ℕ)
  encode_all [] = some []
  encode_all (v ∷ vs) = joined (encode stringify v) (encode_all vs)

module _ {V : Type 0} (stringify : V → List ℕ) (parse : List ℕ → Option V)
    -- `JSON.parse` reads what `JSON.stringify` wrote.
    (faithful : (v : V) → parse (stringify v) ≡ some v) where
  next_message-encode :
      (v : V) (bytes c : List ℕ)
      → encode stringify v ≡ some bytes
      → next_message parse (bytes ++ c) ≡ frame (some v) c
  unfolding encode write_uint32 front
  next_message-encode v bytes c e =
      let body = stringify v in
      let n = length body in
      elim (Bool-cases (ltb max_message_bytes n)) [
        | inl over ↦ absurd (cc (rw (encode, over) at e))
        | inr fits ↦
            let e' = rw (encode, fits) at e in
            let is : write_uint32 n ++ body ≡ bytes = cc in
            let small : n ≤ max_message_bytes = ground arith in
            let front' : Front parse n (body ++ c) =
              whole small (omega (arith, length-append body c)) v
                (rw (take-length-append body c) (faithful v)) in
            rw (← is) (
              next_message-front parse _ _ _ _ n (body ++ c) front'
                (read_uint32-write n (omega arith))
              ∙ ap (frame (some v)) (drop-length-append body c))
      ]

  drain-encode_all :
      (vs : List V) (stream : List ℕ)
      → encode_all stringify vs ≡ some stream
      → drain (next_message parse) stream ≡ done vs []
  unfolding encode_all
  drain-encode_all [] stream e =
      let is : [] ≡ stream = cc in
      rw (← is) (
        drain-short (next_message parse) (next_message-IsFraming parse) []
          (next_message-IsFraming parse).empty)
  drain-encode_all (v ∷ vs) stream e = elim (Option-cases (encode stringify v)) [
    | inl over ↦ absurd (cc (rw (encode_all, over) at e))
    | inr (bytes, one) ↦ elim (Option-cases (encode_all stringify vs)) [
      | inl over ↦ absurd (cc (rw (encode_all, one, over) at e))
      | inr (more, others) ↦
          let is : bytes ++ more ≡ stream = cc (rw (encode_all, one, others) at e) in
          rw (← is) (
            drain-frame (next_message parse) (next_message-IsFraming parse) (bytes ++ more) more
              (some v) (next_message-encode v bytes more one)
            ∙ ap (prepend (some v)) (drain-encode_all vs more others))
    ]
  ]

  -- If `JSON.parse` reads what `JSON.stringify` wrote: however the bytes of some messages that can be encoded are
  -- cut into chunks of at most 1 MiB and four bytes, the decoder returns just these messages, in order, without
  -- an error, and has nothing left.
  pub feed-encode_all :
      (vs : List V) (stream : List ℕ) (chunks : List (List ℕ))
      → encode_all stringify vs ≡ some stream
      → concat chunks ≡ stream
      → All (λ c. length c ≤ max_message_bytes + 4) chunks
      → feed (push parse) [] chunks ≡ record { values = vs; buffer = []; error = none }
  feed-encode_all vs stream chunks written cut fit =
      feed-drain (next_message parse) (next_message-IsFraming parse) (push parse)
        (λ c. length c ≤ max_message_bytes + 4) (λ _. Unit {0})
        (λ b c d us ws r rest s f _ good _. push-drain parse b c us r s f good) [] chunks vs []
        (next_message-IsFraming parse).empty fit tt (rw cut (drain-encode_all vs stream written))
