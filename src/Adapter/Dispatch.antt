-- ===== src/Adapter/Dispatch.antt =====
-- dispatchMessage of internal/protocol/adapter.go with the handlers that it calls: the messages
-- that arrive, one after the other on the read loop, and what the adapter answers.
pub mod Handshake
pub mod Acks
pub mod Links
pub mod Overtaken
use session_proxy.Prelude.{
  ℕ, ◌≡◌, Bool, true, false, ◌&&◌, ◌||◌, not, List, [], ◌∷◌, ◌++◌, Option, none, some, ite, ◌==◌,
  if◌then◌else◌,
}
use session_proxy.Prelude.Bytes.{Bytes, codes, bytes_discrete}
use session_proxy.Prelude.Int64.{Int64, inc}
use session_proxy.Message.{
  External, AgentMessage, ProcessedClientAction, new_acknowledge_message,
  new_handshake_response_message, msg_type_output_stream_data, msg_type_acknowledge,
  msg_type_pause_publication, msg_type_start_publication, msg_type_channel_closed,
  payload_type_handshake_request, payload_type_handshake_complete,
}
use session_proxy.Adapter.Seen.{Seen, mark_message_seen}
use session_proxy.Adapter.Reorder.{Reorder, order_message, update_expected_seq_num}
use session_proxy.Adapter.Publication.{
  Flow, pause_publication, resume_publication, handle_acknowledge,
}
use session_proxy.Adapter.Lifecycle.{
  Link, CloseError, close_with_error, close_stream, channel_closed_by_remote, handshake_failed,
  ack_failed,
}
use session_proxy.Adapter.Write.{WriteError}

-- The fields of the Adapter that the handlers touch. `sent` lists what writeMessage has written.
pub record Session : Type 0 where
  pub link : Link
  pub seen : Seen
  pub reorder : Reorder
  pub flow : Flow
  pub seq_num : Int64
  pub handshake_responded : Bool
  pub handshake_complete : Bool
  pub last_response : Option AgentMessage
  pub sent : List AgentMessage
  pub last_inbound : ℕ

-- What a handler meets: the time, the id and the time of each message that it makes, and what
-- writeRaw returns for the first and for the second.
pub record Turn : Type 0 where
  pub now : ℕ
  pub ack_id : Bytes
  pub ack_created : ℕ
  pub ack_written : Option WriteError
  pub response_id : Bytes
  pub response_created : ℕ
  pub response_written : Option WriteError

-- The errors of a handler: json.Marshal, and those of writeRaw.
pub data SendError : Type 0 where
  not_marshalled : SendError
  not_written : WriteError → SendError

-- Closing shuts the pipe and the window with the link.
unfoldable pub with_link : Link → Session → Session
with_link l s = record s {
  link = l;
  reorder = record s.reorder { writer_open = l.stream_open };
  flow = record s.flow { window = record s.flow.window { closed = l.outgoing_closed } };
}

unfoldable pub close_session : CloseError → Session → Session
unfolding with_link
close_session e s = with_link (close_with_error e s.link) s

-- writeMessage
unfoldable pub write_message :
    Option WriteError → AgentMessage → Session → Option SendError × Session
write_message none msg s = (none, record s { sent = s.sent ++ (msg ∷ []) })
write_message (some e) msg s = (some (not_written e), s)

-- The one action that the adapter accepts.
abbrev pub accepted_actions : List ProcessedClientAction
accepted_actions =
    record { action_type = codes "SessionType"; action_status = 1; action_error = [] } ∷ []

-- ClientVersion
abbrev pub client_version : Bytes
client_version = codes "1.2.0.0"

-- An error closes the adapter for a reason.
unfoldable pub or_close : CloseError → Option SendError × Session → Session
unfolding close_session
or_close reason (none, s) = s
or_close reason (some err, s) = close_session reason s

unfoldable pub with_reorder : (Reorder → Reorder) → Session → Session
with_reorder f s = record s { reorder = f s.reorder }

-- markHandshakeComplete
unfoldable pub mark_handshake_complete : Session → Bool × Session
mark_handshake_complete s =
    if s.handshake_complete then (false, s) else (true, record s { handshake_complete = true })

unfoldable pub with_flow : (Flow → Flow) → Session → Session
with_flow f s = record s { flow = f s.flow }

-- The case of channel_closed.
unfoldable pub handle_channel_closed : Session → Session
unfolding with_link
handle_channel_closed s =
    with_link (close_with_error channel_closed_by_remote (close_stream s.link)) s

-- resendHandshakeResponse
unfoldable pub resend_handshake_response : Turn → Session → Option SendError × Session
unfolding write_message
resend_handshake_response e s = elim s.last_response [
  | none ↦ (none, s)
  | some msg ↦ write_message e.response_written msg s
]

module _ (x : External) where
  -- sendAck
  unfoldable pub send_ack : Turn → AgentMessage → Session → Option SendError × Session
  unfolding write_message
  send_ack e orig s =
      elim (new_acknowledge_message x e.ack_id e.ack_created orig.message_type orig.message_id
        orig.sequence_number) [
          | none ↦ (some not_marshalled, s)
          | some ack ↦ write_message e.ack_written ack s
        ]

  -- handleHandshakeRequest behind its acknowledgement.
  unfoldable pub send_handshake_response : Turn → Session → Option SendError × Session
  unfolding write_message
  send_handshake_response e s =
      let numbered = record s { seq_num = inc s.seq_num } in
      elim (new_handshake_response_message x e.response_id e.response_created s.seq_num
        client_version accepted_actions) [
          | none ↦ (some not_marshalled, numbered)
          | some msg ↦
              write_message e.response_written msg (record numbered { last_response = some msg })
        ]

  -- handleHandshakeRequest
  unfoldable pub handle_handshake_request :
      Turn → AgentMessage → Session → Option SendError × Session
  unfolding send_ack send_handshake_response
  handle_handshake_request e orig s =
      let acked = send_ack e orig (record s { handshake_responded = true }) in
      elim acked.0 [ none ↦ send_handshake_response e acked.1 | some err ↦ (some err, acked.1) ]

  -- handleHandshakeRequestPayload
  unfoldable pub handle_handshake_request_payload : Turn → AgentMessage → Bool → Session → Session
  unfolding handle_handshake_request resend_handshake_response send_ack close_session or_close
      with_reorder
  handle_handshake_request_payload e msg is_duplicate s =
      if is_duplicate || s.handshake_responded
      then (let acked = send_ack e msg s in
          elim acked.0 [
            | some err ↦ close_session handshake_failed acked.1
            | none ↦ or_close handshake_failed (resend_handshake_response e acked.1)
          ])
      else (let handled = handle_handshake_request e msg s in
          elim handled.0 [
            | some err ↦ close_session handshake_failed handled.1
            | none ↦ with_reorder (update_expected_seq_num msg) handled.1
          ])

  -- handleHandshakeCompletePayload
  unfoldable pub handle_handshake_complete_payload : Turn → AgentMessage → Session → Session
  unfolding mark_handshake_complete send_ack or_close with_reorder
  handle_handshake_complete_payload e msg s =
      let marked = mark_handshake_complete s in
      let t = if marked.0 then with_reorder (update_expected_seq_num msg) marked.1 else marked.1 in
      or_close handshake_failed (send_ack e msg t)

  -- handleDataMessage
  unfoldable pub handle_data_message : Turn → AgentMessage → Session → Session
  unfolding send_ack close_session with_reorder
  handle_data_message e msg s =
      let acked = send_ack e msg s in
      elim acked.0 [
        | some err ↦ close_session ack_failed acked.1
        | none ↦ with_reorder (order_message msg) acked.1
      ]

  -- handleOutputStream
  unfoldable pub handle_output_stream : Turn → AgentMessage → Bool → Session → Session
  unfolding handle_handshake_request_payload handle_handshake_complete_payload handle_data_message
  handle_output_stream e msg is_duplicate s =
      if msg.payload_type == payload_type_handshake_request
      then handle_handshake_request_payload e msg is_duplicate s
      else if msg.payload_type == payload_type_handshake_complete
      then handle_handshake_complete_payload e msg s
      else handle_data_message e msg s

  -- What dispatchMessage does behind markMessageSeen. false ends the read loop.
  unfoldable pub handle_message : Turn → AgentMessage → Bool → Session → Bool × Session
  unfolding handle_output_stream with_flow handle_channel_closed
  handle_message e msg is_duplicate s =
      ite (bytes_discrete msg.message_type msg_type_output_stream_data)
        (true, handle_output_stream e msg is_duplicate s)
        (ite (bytes_discrete msg.message_type msg_type_acknowledge)
          (true, with_flow (handle_acknowledge x e.now msg.payload) s)
          (ite (bytes_discrete msg.message_type msg_type_pause_publication)
            (true, with_flow (pause_publication e.now) s)
            (ite (bytes_discrete msg.message_type msg_type_start_publication)
              (true, with_flow resume_publication s)
              (ite (bytes_discrete msg.message_type msg_type_channel_closed)
                (false, handle_channel_closed s) (true, s)))))

  -- dispatchMessage
  unfoldable pub dispatch_message : Turn → AgentMessage → Session → Bool × Session
  unfolding handle_message
  dispatch_message e msg s =
      let marked = mark_message_seen msg.message_id msg.sequence_number s.seen in
      handle_message e msg marked.0 (record s { seen = marked.1; last_inbound = e.now })

  -- The read loop over the messages that arrive, until a handler ends it.
  unfoldable pub dispatch_all : List (Turn × AgentMessage) → Session → Session
  unfolding dispatch_message
  dispatch_all [] s = s
  dispatch_all ((e, msg) ∷ rest) s =
      let (on, t) = dispatch_message e msg s in elim on [ true ↦ dispatch_all rest t | false ↦ t ]
