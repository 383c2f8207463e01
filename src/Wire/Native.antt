-- ===== src/Wire/Native.antt =====
-- apps/broker/src/native-framing.ts: messages with the length of their body before them, four bytes, the
-- lowest first.
use tabgrant.Common.{
  ℕ, ◌+◌, ◌*◌, ◌/◌, ◌%◌, List, [], ◌∷◌, ◌++◌, Option, none, some, length, take, drop, ltb,
  if◌then◌else◌,
}
use tabgrant.Broker.Constants.{max_message_bytes}
use tabgrant.Wire.Stream.{
  message_too_large, malformed_json, Next, short, refused, frame, Drained, failed, drain,
}

-- `header.writeUInt32LE(n, 0)`
unfoldable pub write_uint32 : ℕ → List ℕ
write_uint32 n = n % 256 ∷ n / 256 % 256 ∷ n / 65536 % 256 ∷ n / 16777216 % 256 ∷ []

-- `buffer.readUInt32LE(0)`
unfoldable pub read_uint32 : ℕ → ℕ → ℕ → ℕ → ℕ
read_uint32 a b c d = a + 256 * b + 65536 * c + 16777216 * d

module _ {V : Type 0} (stringify : V → List ℕ) where
  -- `encodeNativeMessage`: `none` is the `BrokerRpcError`. `stringify` is `JSON.stringify` in UTF-8.
  unfoldable pub encode : V → Option (List ℕ)
  encode v =
      let body = stringify v in
      if ltb max_message_bytes (length body)
      then none
      else some (write_uint32 (length body) ++ body)

module _ {V : Type 0} (parse : List ℕ → Option V) where
  -- `JSON.parse` of a body in UTF-8.
  abbrev parsed : Option V → List ℕ → Next V
  parsed none rest = refused malformed_json rest
  parsed (some v) rest = frame (some v) rest

  -- One turn of the loop.
  unfoldable pub next_message : List ℕ → Next V
  next_message (a ∷ b ∷ c ∷ d ∷ rest) =
      let n = read_uint32 a b c d in
      if ltb max_message_bytes n
      then refused message_too_large (a ∷ b ∷ c ∷ d ∷ rest)
      else if ltb (length rest) n
      then short
      else parsed (parse (take n rest)) (drop n rest)
  next_message _ = short

  -- `NativeMessageDecoder.push`
  unfoldable pub push : List ℕ → List ℕ → Drained V
  push buffer chunk =
      let whole = buffer ++ chunk in
      if ltb (max_message_bytes * 2 + 8) (length whole)
      then failed message_too_large whole
      else drain next_message whole
