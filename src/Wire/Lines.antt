-- ===== src/Wire/Lines.antt =====
-- apps/broker/src/wire.ts: `JsonLineDecoder`, and the line that `RpcPeer.send` writes. A line feed ends each
-- message.
use tabgrant.Common.{ℕ, ◌==◌, List, [], ◌∷◌, ◌++◌, Option, none, some, length, ltb, if◌then◌else◌}
use tabgrant.Broker.Constants.{max_message_bytes}
use tabgrant.Wire.Stream.{
  message_too_large, malformed_json, Next, short, refused, frame, Drained, done, failed, drain,
}

abbrev pub with_byte : ℕ → Option (List ℕ × List ℕ) → Option (List ℕ × List ℕ)
with_byte x none = none
with_byte x (some (line, rest)) = some (x ∷ line, rest)

-- `buffer.indexOf(0x0a)`, with what stands before and behind it.
unfoldable pub cut_line : List ℕ → Option (List ℕ × List ℕ)
cut_line [] = none
cut_line (x ∷ xs) = let later = cut_line xs in if x == 10 then some ([], xs) else with_byte x later

module _ {V : Type 0} (parse : List ℕ → Option V) where
  abbrev pub read_line : Option V → List ℕ → Next V
  read_line none rest = refused malformed_json rest
  read_line (some v) rest = frame (some v) rest

  -- A line that was cut off.
  abbrev pub take_line : List ℕ → List ℕ → Next V
  take_line line rest =
      if ltb max_message_bytes (length line)
      then refused message_too_large rest
      else if ltb 0 (length line)
      then read_line (parse line) rest
      else frame none rest

  -- One turn of the loop.
  unfoldable pub next_line : List ℕ → Next V
  unfolding cut_line
  next_line b = elim (cut_line b) [ none ↦ short | some (line, rest) ↦ take_line line rest ]

  abbrev pub bound_buffer : Drained V → Drained V
  bound_buffer (failed e rest) = failed e rest
  bound_buffer (done vs rest) =
      if ltb max_message_bytes (length rest) then failed message_too_large rest else done vs rest

  -- `JsonLineDecoder.push`
  unfoldable pub push_line : List ℕ → List ℕ → Drained V
  push_line buffer chunk = bound_buffer (drain next_line (buffer ++ chunk))

-- `RpcPeer.send`: the bytes that go to the socket, or the `BrokerRpcError`. `stringify` is `JSON.stringify` in
-- UTF-8.
unfoldable pub send_line : {V : Type 0} → (V → List ℕ) → V → Option (List ℕ)
send_line stringify v =
    let serialized = stringify v ++ 10 ∷ [] in
    if ltb max_message_bytes (length serialized) then none else some serialized
