-- ===== src/Message.antt =====
-- internal/protocol/message.go: the frames of the SSM data channel. What the file calls of other
-- packages (crypto/sha256, encoding/json, google/uuid, the clock) are parameters and arguments.
pub mod Encode
pub mod Decode
pub mod RoundTrip
pub mod Malformed
use mathlib.Core.Option
use session_proxy.Prelude.{
  ℕ, ◌%◌, ◌^◌, ◌<◌, ◌≤◌, ◌≡◌, Bool, true, List, [], ◌∷◌, Option, length, replicate,
}
use session_proxy.Prelude.Bytes.{Byte, Bytes, codes, IsByte}
use session_proxy.Prelude.Int64.{Int64}

abbrev pub msg_type_output_stream_data : Bytes
msg_type_output_stream_data = codes "output_stream_data"

abbrev pub msg_type_input_stream_data : Bytes
msg_type_input_stream_data = codes "input_stream_data"

abbrev pub msg_type_acknowledge : Bytes
msg_type_acknowledge = codes "acknowledge"

abbrev pub msg_type_channel_closed : Bytes
msg_type_channel_closed = codes "channel_closed"

abbrev pub msg_type_pause_publication : Bytes
msg_type_pause_publication = codes "pause_publication"

abbrev pub msg_type_start_publication : Bytes
msg_type_start_publication = codes "start_publication"

abbrev pub schema_version_value : ℕ
schema_version_value = 1

-- HeaderLen + MessageTypeLen + ... + PayloadLengthLen
abbrev pub total_header_len : ℕ
total_header_len = 120

-- The same without PayloadLengthLen.
abbrev pub header_length_value : ℕ
header_length_value = 116

abbrev pub payload_length_len : ℕ
payload_length_len = 4

abbrev pub flag_data : ℕ
flag_data = 0

abbrev pub payload_type_output : ℕ
payload_type_output = 1

abbrev pub payload_type_handshake_request : ℕ
payload_type_handshake_request = 5

abbrev pub payload_type_handshake_response : ℕ
payload_type_handshake_response = 6

abbrev pub payload_type_handshake_complete : ℕ
payload_type_handshake_complete = 7

-- AgentMessageHeader. A uint32 or uint64 is a number, an array of bytes a list.
pub record Header : Type 0 where
  pub header_length : ℕ
  pub message_type : Bytes
  pub schema_version : ℕ
  pub created_date : ℕ
  pub sequence_number : Int64
  pub flags : ℕ
  pub message_id : Bytes
  pub payload_digest : Bytes
  pub payload_type : ℕ
  pub payload_length : ℕ

pub record AgentMessage : Type 0 where
  pub header : Header
  pub open header use *
  pub payload : Bytes

pub record AcknowledgeContent : Type 0 where
  pub acked_type : Bytes
  pub acked_id : Bytes
  pub acked_seq : Int64
  pub is_sequential : Bool

pub record ProcessedClientAction : Type 0 where
  pub action_type : Bytes
  pub action_status : ℕ
  pub action_error : Bytes

pub record HandshakeResponsePayload : Type 0 where
  pub client_version : Bytes
  pub processed_client_actions : List ProcessedClientAction
  pub errors : List Bytes

-- The functions of other packages that the protocol code calls. `none` is their error.
pub record External : Type 0 where
  pub sha256 : Bytes → Bytes
  pub uuid_string : Bytes → Bytes
  pub uuid_parse : Bytes → Option Bytes
  pub marshal_ack : AcknowledgeContent → Option Bytes
  pub unmarshal_ack : Bytes → Option AcknowledgeContent
  pub marshal_response : HandshakeResponsePayload → Option Bytes

-- The fields fit their widths.
pub record IsEncodable (h : Header) : Type 0 where
  pub header_length_fits : h.header_length < 2 ^ 32
  pub type_fits : length h.message_type ≤ 32
  pub schema_fits : h.schema_version < 2 ^ 32
  pub date_fits : h.created_date < 2 ^ 64
  pub seq_fits : h.sequence_number < 2 ^ 64
  pub flags_fits : h.flags < 2 ^ 64
  pub id_length : length h.message_id ≡ 16
  pub payload_type_fits : h.payload_type < 2 ^ 32

zero_digest : Bytes
zero_digest = replicate 32 0

-- NewInputMessage, with the new id and the time as arguments.
unfoldable pub new_input_message : Bytes → ℕ → Bytes → Int64 → AgentMessage
unfolding zero_digest
new_input_message id now payload seq = record {
  header = record {
    header_length = header_length_value;
    message_type = msg_type_input_stream_data;
    schema_version = schema_version_value;
    created_date = now;
    sequence_number = seq;
    flags = flag_data;
    message_id = id;
    payload_digest = zero_digest;
    payload_type = payload_type_output;
    payload_length = length payload % 2 ^ 32;
  };
  payload = payload;
}

unfoldable pub acknowledge_message : Bytes → ℕ → Bytes → AgentMessage
unfolding zero_digest
acknowledge_message id now payload = record {
  header = record {
    header_length = header_length_value;
    message_type = msg_type_acknowledge;
    schema_version = schema_version_value;
    created_date = now;
    sequence_number = 0;
    flags = 3;
    message_id = id;
    payload_digest = zero_digest;
    payload_type = 0;
    payload_length = length payload % 2 ^ 32;
  };
  payload = payload;
}

handshake_response_message : Bytes → ℕ → Int64 → Bytes → AgentMessage
unfolding zero_digest
handshake_response_message id now seq payload = record {
  header = record {
    header_length = header_length_value;
    message_type = msg_type_input_stream_data;
    schema_version = schema_version_value;
    created_date = now;
    sequence_number = seq;
    flags = flag_data;
    message_id = id;
    payload_digest = zero_digest;
    payload_type = payload_type_handshake_response;
    payload_length = length payload % 2 ^ 32;
  };
  payload = payload;
}

module _ (x : External) where
  -- NewAcknowledgeMessage
  unfoldable pub new_acknowledge_message : Bytes → ℕ → Bytes → Bytes → Int64 → Option AgentMessage
  unfolding acknowledge_message
  new_acknowledge_message id now ref_type ref_id ref_seq =
      Option.map (acknowledge_message id now) (x.marshal_ack content)
    where
      content : AcknowledgeContent
      content = record {
        acked_type = ref_type;
        acked_id = x.uuid_string ref_id;
        acked_seq = ref_seq;
        is_sequential = true;
      }

  -- NewHandshakeResponseMessage
  unfoldable pub new_handshake_response_message :
      Bytes → ℕ → Int64 → Bytes → List ProcessedClientAction → Option AgentMessage
  unfolding handshake_response_message
  new_handshake_response_message id now seq version actions =
      Option.map (handshake_response_message id now seq) (x.marshal_response response)
    where
      response : HandshakeResponsePayload
      response = record {
        client_version = version;
        processed_client_actions = actions;
        errors = [];
      }
