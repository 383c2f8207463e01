-- ===== src/Wire/Tests.antt =====
-- Small messages over the framings of apps/broker/src/native-framing.ts and apps/broker/src/wire.ts, a
-- history of an `RpcPeer`, and the theorems at them.
use tabgrant.Common.{
  ℕ, ◌≡◌, refl, ◌<◌, ◌≤◌, ◌+◌, arith, Bool, true, false, List, [], ◌∷◌, Option, none, some, length,
  ◌==◌, not, if◌then◌else◌,
}
use tabgrant.Broker.Constants.{max_message_bytes}
use tabgrant.Protocol.Platform.{Platform}
use tabgrant.Wire.Stream.{short, done, drain, drain_within}
use tabgrant.Wire.Chunks.{feed}
use tabgrant.Wire.Native.{encode, next_message, push, read_uint32, write_uint32}
use tabgrant.Wire.NativeLaws.{push-IsBounded, encode_all, feed-encode_all}
use tabgrant.Wire.Lines.{cut_line, send_line, next_line, push_line}
use tabgrant.Wire.LineLaws.{push_line-IsBounded, send_all, feed-send_all}
use tabgrant.Wire.Peer.{
  Envelope, request_envelope, response_envelope, Peer, new_peer, request, receive, answer, returns,
}

-- A Boolean as the text of a digit.
abbrev digit : Bool → List ℕ
digit true = 49 ∷ []
digit false = 48 ∷ []

abbrev is_last : List ℕ → Bool
is_last [] = true
is_last (c ∷ cs) = false

abbrev bit : List ℕ → Option Bool
bit [] = none
bit (c ∷ rest) =
    if not (is_last rest)
    then none
    else if c == 49
    then some true
    else if c == 48
    then some false
    else none

bit-digit : (b : Bool) → bit (digit b) ≡ some b
bit-digit true = refl
bit-digit false = refl

digit-line : (b : Bool) → cut_line (digit b) ≡ none
unfolding cut_line
digit-line true = refl
digit-line false = refl

digit-positive : (b : Bool) → 0 < length (digit b)
digit-positive true = omega arith
digit-positive false = omega arith

-- A message of one byte, and the first byte of another.
pushed : push bit (1 ∷ 0 ∷ 0 ∷ []) (0 ∷ 49 ∷ 1 ∷ []) ≡ done (true ∷ []) (1 ∷ [])
unfolding push drain drain_within next_message read_uint32
pushed = refl

push-IsBounded_example :
    (next_message bit (1 ∷ []) ≡ short) × (length {A = ℕ} (1 ∷ []) < max_message_bytes + 4)
push-IsBounded_example =
    push-IsBounded bit (1 ∷ 0 ∷ 0 ∷ []) (0 ∷ 49 ∷ 1 ∷ []) (1 ∷ []) (true ∷ []) pushed

pushed_line : push_line bit (10 ∷ 49 ∷ []) (10 ∷ 48 ∷ []) ≡ done (true ∷ []) (48 ∷ [])
unfolding push_line drain drain_within next_line cut_line
pushed_line = refl

push_line-IsBounded_example :
    (cut_line (48 ∷ []) ≡ none) × (length {A = ℕ} (48 ∷ []) ≤ max_message_bytes)
push_line-IsBounded_example =
    push_line-IsBounded bit (10 ∷ 49 ∷ []) (10 ∷ 48 ∷ []) (48 ∷ []) (true ∷ []) pushed_line

encoded_lem :
    encode_all digit (true ∷ false ∷ []) ≡ some (1 ∷ 0 ∷ 0 ∷ 0 ∷ 49 ∷ 1 ∷ 0 ∷ 0 ∷ 0 ∷ 48 ∷ [])
unfolding encode_all encode write_uint32
encoded_lem = refl

feed-encode_all_example :
    feed (push bit) [] ((1 ∷ 0 ∷ []) ∷ (0 ∷ 0 ∷ 49 ∷ 1 ∷ []) ∷ (0 ∷ 0 ∷ 0 ∷ 48 ∷ []) ∷ [])
    ≡ record { values = true ∷ false ∷ []; buffer = []; error = none }
feed-encode_all_example =
    feed-encode_all digit bit bit-digit (true ∷ false ∷ [])
      (1 ∷ 0 ∷ 0 ∷ 0 ∷ 49 ∷ 1 ∷ 0 ∷ 0 ∷ 0 ∷ 48 ∷ [])
      ((1 ∷ 0 ∷ []) ∷ (0 ∷ 0 ∷ 49 ∷ 1 ∷ []) ∷ (0 ∷ 0 ∷ 0 ∷ 48 ∷ []) ∷ []) encoded_lem refl
      (omega arith, (omega arith, (omega arith, tt)))

sent_lem : send_all digit (true ∷ false ∷ []) ≡ some (49 ∷ 10 ∷ 48 ∷ 10 ∷ [])
unfolding send_all send_line
sent_lem = refl

feed-send_all_example :
    feed (push_line bit) [] ((49 ∷ []) ∷ (10 ∷ 48 ∷ []) ∷ (10 ∷ []) ∷ [])
    ≡ record { values = true ∷ false ∷ []; buffer = []; error = none }
feed-send_all_example =
    feed-send_all digit bit bit-digit digit-line digit-positive (true ∷ false ∷ [])
      (49 ∷ 10 ∷ 48 ∷ 10 ∷ []) ((49 ∷ []) ∷ (10 ∷ 48 ∷ []) ∷ (10 ∷ []) ∷ []) sent_lem refl

-- Every text counts as a UUID, and every envelope is one byte long.
abbrev plain : Platform
plain = record {
  new_url = λ t. none;
  to_lower_case = λ t. t;
  normalize_nfc = λ t. t;
  quote = λ t. t;
  sha256_hex = λ t. t;
  hmac_sha256_hex = λ secret t. t;
  number_text = λ n. "7";
  without_query_and_hash = λ t. t;
  is_uuid = λ t. true;
}

abbrev byte : Envelope Bool → List ℕ
byte e = 49 ∷ []

abbrev asked : Peer Bool
asked = (request plain byte "a" "broker.ping" true new_peer).0

abbrev called : Peer Bool
called = receive plain byte 5 (some (request_envelope "b" "broker.ping" false)) asked

abbrev answered : Peer Bool
answered = answer plain byte "b" (returns (some true)) called

abbrev told : Peer Bool
told = receive plain byte 6 (some (response_envelope "a" true (some false) none)) answered
