-- ===== src/Tests/Messages.antt =====
-- Frames of internal/protocol/message.go at concrete values.
use session_proxy.Prelude.{
  ℕ, ◌+◌, ◌≤◌, ◌≡◌, ◌≢◌, refl, List, [], ◌∷◌, ◌++◌, none, some, arith, length, replicate,
}
use session_proxy.Prelude.Bytes.{Bytes, codes, be}
use session_proxy.Message.{Header, AgentMessage, External, IsEncodable, new_input_message}
use session_proxy.Message.Encode.{encode_header, sealed, marshal_binary}
use session_proxy.Message.Decode.{
  ok, panic, trim_right, read_header, read_bytes, read_uint, read_payload, cut_payload,
  unmarshal_message,
}
use session_proxy.Message.RoundTrip.{received, unmarshal_message-marshal_binary}
use session_proxy.Message.Malformed.{unmarshal_message_panics}

abbrev library : External
library = record {
  sha256 = λ bytes. replicate 32 7;
  uuid_string = λ id. id;
  uuid_parse = λ text. some text;
  marshal_ack = λ content. none;
  unmarshal_ack = λ bytes. none;
  marshal_response = λ response. none;
}

abbrev id : Bytes
id = 1 ∷ 2 ∷ 3 ∷ 4 ∷ 5 ∷ 6 ∷ 7 ∷ 8 ∷ 9 ∷ 10 ∷ 11 ∷ 12 ∷ 13 ∷ 14 ∷ 15 ∷ 16 ∷ []

abbrev greeting : AgentMessage
greeting = new_input_message id 1700000000000 (codes "SSH-2.0") 5

greeting-IsEncodable : IsEncodable greeting.header
unfolding new_input_message
greeting-IsEncodable = omega arith

-- The type comes back without its padding, and the id with its halves in place.
received_greeting :
    unmarshal_message (marshal_binary library greeting)
    ≡ ok (record { header = sealed library greeting; payload = codes "SSH-2.0" })
unfolding new_input_message marshal_binary encode_header session_proxy.Message.Encode.pad_type be
    unmarshal_message read_header read_bytes read_uint read_payload cut_payload trim_right
    session_proxy.Prelude.Bytes.from_be
received_greeting = refl

unmarshal_message-marshal_binary_example :
    unmarshal_message (marshal_binary library greeting)
    ≡ ok (record { header = received (sealed library greeting); payload = greeting.payload })
unfolding new_input_message
unmarshal_message-marshal_binary_example =
    unmarshal_message-marshal_binary library greeting greeting-IsEncodable refl refl (omega arith)

-- A frame whose header sends offset and length around 32 bits.
abbrev hostile : Header
hostile = record {
  header_length = 4294967280;
  message_type = codes "output_stream_data";
  schema_version = 1;
  created_date = 0;
  sequence_number = 0;
  flags = 0;
  message_id = id;
  payload_digest = replicate 32 0;
  payload_type = 1;
  payload_length = 12;
}

unmarshal_message_panics_example : unmarshal_message (encode_header hostile ++ []) ≡ panic
unmarshal_message_panics_example =
    unmarshal_message_panics hostile [] (omega arith) refl (omega arith) (omega arith) (omega arith)
      (omega arith) (omega arith)
