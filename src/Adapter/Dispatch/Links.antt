-- ===== src/Adapter/Dispatch/Links.antt =====
-- What dispatchMessage of internal/protocol/adapter.go and its handlers do to the WebSocket.
use session_proxy.Prelude.{
  ◌≡◌, ◌⊎◌, inl, inr, refl, Bool, true, false, ◌||◌, Option, none, some, arith, ◌==◌, if_both,
  Option-cases, Bool-cases, ite_both,
}
use session_proxy.Prelude.Bytes.{bytes_discrete}
use session_proxy.Message.{
  External, AgentMessage, new_acknowledge_message, new_handshake_response_message,
  msg_type_output_stream_data, payload_type_handshake_request, payload_type_handshake_complete,
}
use session_proxy.Adapter.Write.{WriteError}
use session_proxy.Adapter.Lifecycle.{
  Link, CloseError, close_with_error, close_adapter, set_close_reason, close_stream,
  handshake_failed,
}
use session_proxy.Adapter.Dispatch.{
  Session, Turn, SendError, close_session, with_link, write_message, send_ack,
  resend_handshake_response, send_handshake_response, handle_handshake_request, or_close,
  with_reorder, handle_handshake_request_payload, mark_handshake_complete,
  handle_handshake_complete_payload, handle_data_message, handle_output_stream, handle_message,
  handle_channel_closed, dispatch_message, client_version, accepted_actions, with_flow,
}
use session_proxy.Adapter.Reorder.{update_expected_seq_num}
use session_proxy.Adapter.Seen.{mark_message_seen}
use session_proxy.Message.{
  msg_type_acknowledge, msg_type_pause_publication, msg_type_start_publication,
  msg_type_channel_closed,
}

-- A link that was open and was shut by Close.
abbrev pub IsShut : Link → Link → Type 0
IsShut l k = (k.done ≡ true) × (k.conn ≡ none) × (k.conn_gen ≡ l.conn_gen)

-- A handler leaves the link as it was, or has closed the adapter.
abbrev pub Keeps : Link → Session → Type 0
Keeps l t = (t.link ≡ l) ⊎ IsShut l t.link

module _ (l : Link) (open_link : l.done ≡ false) where
  close_session-Keeps : (e : CloseError) (t : Session) → Keeps l t → Keeps l (close_session e t)
  unfolding close_session with_link close_with_error close_adapter set_close_reason
  close_session-Keeps e t k = ground (arith, k, open_link)

  or_close-Keeps :
      (e : CloseError) (o : Option SendError × Session) → Keeps l o.1 → Keeps l (or_close e o)
  unfolding or_close
  or_close-Keeps e (none, t) k = k
  or_close-Keeps e (some err, t) k = close_session-Keeps e t k

  handle_channel_closed-Keeps : (t : Session) → Keeps l t → Keeps l (handle_channel_closed t)
  unfolding handle_channel_closed with_link close_with_error close_adapter set_close_reason
      close_stream
  handle_channel_closed-Keeps t k = ground (arith, k, open_link)

  channel_closed_shuts : (t : Session) → (handle_channel_closed t).link.done ≡ true
  unfolding handle_channel_closed with_link close_with_error close_adapter set_close_reason
      close_stream
  channel_closed_shuts t = ground arith

  write_message-Keeps :
      (o : Option WriteError) (m : AgentMessage) (t : Session)
      → Keeps l t
      → Keeps l (write_message o m t).1
  unfolding write_message
  write_message-Keeps none m t k = k
  write_message-Keeps (some e) m t k = k

  resend-Keeps : (e : Turn) (t : Session) → Keeps l t → Keeps l (resend_handshake_response e t).1
  unfolding resend_handshake_response
  resend-Keeps e t k = elim (Option-cases t.last_response) [
    | inl n ↦ rw (n, resend_handshake_response) k
    | inr (m, n) ↦ rw (n, resend_handshake_response) (write_message-Keeps e.response_written m t k)
  ]

  module _ (x : External) (e : Turn) (msg : AgentMessage) where
    send_ack-Keeps : (t : Session) → Keeps l t → Keeps l (send_ack x e msg t).1
    unfolding send_ack
    send_ack-Keeps t k =
        elim (Option-cases (
          new_acknowledge_message x e.ack_id e.ack_created msg.message_type msg.message_id
            msg.sequence_number)) [
              | inl n ↦ rw (n, send_ack) k
              | inr (m, n) ↦ rw (n, send_ack) (write_message-Keeps e.ack_written m t k)
            ]

    send_response-Keeps : (t : Session) → Keeps l t → Keeps l (send_handshake_response x e t).1
    unfolding send_handshake_response
    send_response-Keeps t k =
        elim (Option-cases (
          new_handshake_response_message x e.response_id e.response_created t.seq_num client_version
            accepted_actions)) [
              | inl n ↦ rw (n, send_handshake_response) k
              | inr (m, n) ↦
                  rw (n, send_handshake_response) (write_message-Keeps e.response_written m _ k)
            ]

    handle_data_message-Keeps : (t : Session) → Keeps l t → Keeps l (handle_data_message x e msg t)
    unfolding handle_data_message with_reorder
    handle_data_message-Keeps t k = elim (Option-cases (send_ack x e msg t).0) [
      | inr (err, n) ↦
          rw (n, handle_data_message)
            (close_session-Keeps _ (send_ack x e msg t).1 (send_ack-Keeps t k))
      | inl n ↦ rw (n, handle_data_message) (send_ack-Keeps t k)
    ]

    complete-Keeps :
        (t : Session) → Keeps l t → Keeps l (handle_handshake_complete_payload x e msg t)
    unfolding handle_handshake_complete_payload mark_handshake_complete with_reorder
    complete-Keeps t k = elim (Bool-cases t.handshake_complete) [
      | inl h ↦ rw (h, handle_handshake_complete_payload) (or_close-Keeps _ _ (send_ack-Keeps _ k))
      | inr h ↦ rw (h, handle_handshake_complete_payload) (or_close-Keeps _ _ (send_ack-Keeps _ k))
    ]

    request-Keeps : (t : Session) → Keeps l t → Keeps l (handle_handshake_request x e msg t).1
    unfolding handle_handshake_request
    request-Keeps t k =
        elim (Option-cases (send_ack x e msg (record t { handshake_responded = true })).0) [
          | inr (err, n) ↦ rw (n, handle_handshake_request) (send_ack-Keeps _ k)
          | inl n ↦ rw (n, handle_handshake_request) (send_response-Keeps _ (send_ack-Keeps _ k))
        ]

    again-Keeps :
        (t : Session)
        → Keeps l t
        → Keeps l (elim (send_ack x e msg t).0 [
          | some err ↦ close_session handshake_failed (send_ack x e msg t).1
          | none ↦ or_close handshake_failed (resend_handshake_response e (send_ack x e msg t).1)
        ])
    again-Keeps t k = elim (Option-cases (send_ack x e msg t).0) [
      | inr (err, n) ↦ rw n (close_session-Keeps _ _ (send_ack-Keeps t k))
      | inl n ↦ rw n (or_close-Keeps _ _ (resend-Keeps e _ (send_ack-Keeps t k)))
    ]

    first-Keeps :
        (t : Session)
        → Keeps l t
        → Keeps l (elim (handle_handshake_request x e msg t).0 [
          | some err ↦ close_session handshake_failed (handle_handshake_request x e msg t).1
          | none ↦ with_reorder (update_expected_seq_num msg) (handle_handshake_request x e msg t).1
        ])
    unfolding with_reorder
    first-Keeps t k = elim (Option-cases (handle_handshake_request x e msg t).0) [
      | inr (err, n) ↦ rw n (close_session-Keeps _ _ (request-Keeps t k))
      | inl n ↦ rw n (request-Keeps t k)
    ]

    output_stream-Keeps :
        (duplicate : Bool) (t : Session)
        → Keeps l t
        → Keeps l (handle_output_stream x e msg duplicate t)
    unfolding handle_output_stream handle_handshake_request_payload
    output_stream-Keeps duplicate t k =
        if_both (Keeps l) (msg.payload_type == payload_type_handshake_request) _ _
          (λ b.
            if_both (Keeps l) (duplicate || t.handshake_responded) _ _ (λ c. again-Keeps t k)
              (λ c. first-Keeps t k))
          (λ b.
            if_both (Keeps l) (msg.payload_type == payload_type_handshake_complete) _ _
              (λ c. complete-Keeps t k) (λ c. handle_data_message-Keeps t k))

    -- And where a handler ends the read loop, the adapter is closed.
    abbrev Settles : Bool × Session → Type 0
    Settles (on, t) = Keeps l t × ((on ≡ true) ⊎ (t.link.done ≡ true))

    handle_message-Settles :
        (duplicate : Bool) (t : Session) → Keeps l t → Settles (handle_message x e msg duplicate t)
    unfolding handle_message with_flow
    handle_message-Settles duplicate t k =
        ite_both Settles (bytes_discrete msg.message_type msg_type_output_stream_data) _ _
          (output_stream-Keeps duplicate t k, inl refl)
          (ite_both Settles (bytes_discrete msg.message_type msg_type_acknowledge) _ _ (k, inl refl)
            (ite_both Settles (bytes_discrete msg.message_type msg_type_pause_publication) _ _
              (k, inl refl)
              (ite_both Settles (bytes_discrete msg.message_type msg_type_start_publication) _ _
                (k, inl refl)
                (ite_both Settles (bytes_discrete msg.message_type msg_type_channel_closed) _ _
                  (handle_channel_closed-Keeps t k, inr (channel_closed_shuts t)) (k, inl refl)))))

    pub dispatch_message-Settles :
        (t : Session)
        → Keeps l t
        → Keeps l (dispatch_message x e msg t).1
          × (((dispatch_message x e msg t).0 ≡ true)
              ⊎ ((dispatch_message x e msg t).1.link.done ≡ true))
    unfolding dispatch_message
    dispatch_message-Settles t k =
        handle_message-Settles (mark_message_seen msg.message_id msg.sequence_number t.seen).0 _ k
