-- ===== src/Tests/Sessions.antt =====
-- Messages that arrive at an adapter.
use session_proxy.Prelude.{
  ℕ, ◌≡◌, ◌<◌, ◌^◌, List, map, refl, true, false, [], ◌∷◌, none, some, arith, length, replicate,
  ℕ_discrete,
}
use session_proxy.Prelude.Assoc.{lookup, put}
use session_proxy.Adapter.Seen.{mark_message_seen, evict_oldest}
use session_proxy.Prelude.Bytes.{Bytes, codes, bytes_discrete}
use session_proxy.Prelude.Int64.{Int64}
use session_proxy.Message.{
  External, AgentMessage, acknowledge_message, new_acknowledge_message, msg_type_output_stream_data,
}
use session_proxy.Adapter.Reorder.{feed}
use session_proxy.Adapter.Outgoing.{initial}
use session_proxy.Adapter.Lifecycle.{connected}
use session_proxy.Adapter.Dispatch.{Session, Turn, dispatch_message, dispatch_all}
use session_proxy.Adapter.Reading.{read_loop}
use session_proxy.Adapter.Reading.Front.{IsSendable, arrival, Front, read_loop-Front}
use session_proxy.Adapter.Dispatch.Acks.{Acked, dispatch_message-Acked}
use session_proxy.Adapter.Dispatch.Handshake.{IsAnswered, dispatch_all-IsAnswered}
use session_proxy.Adapter.Dispatch.Overtaken.{IsAckable, overtaken-stuck}

-- Every acknowledgement is two bytes.
abbrev library : External
library = record {
  sha256 = λ bytes. replicate 32 7;
  uuid_string = λ id. id;
  uuid_parse = λ text. some text;
  marshal_ack = λ content. some (codes "{}");
  unmarshal_ack = λ bytes. none;
  marshal_response = λ response. some (codes "{}");
}

abbrev turn : Turn
turn = record {
  now = 9;
  ack_id = replicate 16 1;
  ack_created = 8;
  ack_written = none;
  response_id = replicate 16 2;
  response_created = 7;
  response_written = none;
}

abbrev message : ℕ → Int64 → Bytes → AgentMessage
message kind seq payload = record {
  header = record {
    header_length = 116;
    message_type = msg_type_output_stream_data;
    schema_version = 1;
    created_date = 0;
    sequence_number = seq;
    flags = 0;
    message_id = seq ∷ [];
    payload_digest = replicate 32 0;
    payload_type = kind;
    payload_length = length payload;
  };
  payload = payload;
}

-- An adapter that expects 1.
abbrev session : Session
session = record {
  link = connected 1;
  seen = [];
  reorder = record { expected = 1; buffer = []; stream = []; writer_open = true };
  flow = record { paused = false; pause_ch = false; paused_since = 0; window = initial };
  seq_num = 0;
  handshake_responded = false;
  handshake_complete = false;
  last_response = none;
  sent = [];
  last_inbound = 0;
}

stays_open : (dispatch_message library turn (message 1 2 (codes "SSH")) session).1.link.done ≡ false
unfolding dispatch_message bytes_discrete new_acknowledge_message acknowledge_message
    mark_message_seen lookup put evict_oldest
stays_open = refl

dispatch_message-Acked_example :
    Acked library turn
      (message 1 2 (codes "SSH"))
      session
      (dispatch_message library turn (message 1 2 (codes "SSH")) session).1
dispatch_message-Acked_example =
    dispatch_message-Acked library turn (message 1 2 (codes "SSH")) session refl stays_open

session-IsAnswered : IsAnswered session
session-IsAnswered = record { saved = tt; silent = λ h. refl }

-- The request comes twice.
dispatch_all-IsAnswered_example :
    IsAnswered (dispatch_all library ((turn, message 5 0 []) ∷ (turn, message 5 0 []) ∷ []) session)
dispatch_all-IsAnswered_example =
    dispatch_all-IsAnswered library ((turn, message 5 0 []) ∷ (turn, message 5 0 []) ∷ []) session
      session-IsAnswered

ackable : (m : AgentMessage) → IsAckable library turn m
unfolding new_acknowledge_message acknowledge_message
ackable m = record {
  ack = acknowledge_message (replicate 16 1) 8 (codes "{}");
  made = refl;
  written = refl;
}

overtaken-stuck_example :
    let t =
      (dispatch_message library turn
        (message 7 1 [])
        (dispatch_message library turn (message 1 2 (codes "SSH")) session).1).1.reorder in
    (t.expected ≡ 2)
    × (lookup ℕ_discrete t.expected t.buffer ≡ some (message 1 2 (codes "SSH")))
    × ((feed t (message 1 3 (codes "a") ∷ message 1 4 (codes "b") ∷ [])).stream ≡ [])
overtaken-stuck_example =
    overtaken-stuck library turn turn (message 1 2 (codes "SSH")) (message 7 1 [])
      (message 1 3 (codes "a") ∷ message 1 4 (codes "b") ∷ []) session refl refl refl refl refl refl
      (omega arith) refl (ackable (message 1 2 (codes "SSH"))) (ackable (message 7 1 []))
      (refl, (refl, tt))

-- Two frames arrive on the WebSocket.
abbrev framed : Int64 → Bytes → AgentMessage
framed seq payload = record (message 1 seq payload) {
  header = record (message 1 seq payload).header { message_id = replicate 16 seq };
}

abbrev frames : List (Turn × AgentMessage)
frames = (turn, framed 1 (codes "SSH")) ∷ (turn, framed 2 (codes "-2.0")) ∷ []

framed-IsSendable :
    (seq : Int64) (payload : Bytes)
    → seq < 2 ^ 64
    → length payload < 9
    → IsSendable library (framed seq payload)
framed-IsSendable seq payload h k = record {
  fields_fit = omega (arith, h, k);
  digest_size = refl;
  plain_header = refl;
  frame_fits = omega (arith, k);
}

read_loop-Front_example :
    Front library frames session (read_loop library true 1 (map (arrival library) frames) session).1
read_loop-Front_example =
    read_loop-Front library true 1 1 frames session
      (
        framed-IsSendable 1 (codes "SSH") (omega arith) (omega arith),
        (framed-IsSendable 2 (codes "-2.0") (omega arith) (omega arith), tt),
      )
      (refl, refl, refl)
