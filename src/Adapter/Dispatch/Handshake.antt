-- ===== src/Adapter/Dispatch/Handshake.antt =====
-- The handshake of internal/protocol/adapter.go is answered once.
use session_proxy.Prelude.{
  ◌≡◌, refl, ◌∙◌, Bool, true, false, ◌||◌, List, [], ◌∷◌, Option, none, some, arith, if_both,
  ite_both, if◌then◌else◌, ◌==◌, All, All-imp, All-append, Option-cases, Bool-cases, inl, inr,
}
use session_proxy.Prelude.Bytes.{bytes_discrete}
use session_proxy.Message.{
  External, AgentMessage, new_acknowledge_message, new_handshake_response_message,
  payload_type_handshake_response, payload_type_handshake_request, payload_type_handshake_complete,
  acknowledge_message, msg_type_output_stream_data, msg_type_acknowledge,
  msg_type_pause_publication, msg_type_start_publication, msg_type_channel_closed,
}
use session_proxy.Adapter.Write.{WriteError}
use session_proxy.Adapter.Reorder.{update_expected_seq_num, order_message}
use session_proxy.Adapter.Lifecycle.{CloseError}
use session_proxy.Adapter.Dispatch.{
  Session, Turn, SendError, close_session, with_link, write_message, send_ack,
  resend_handshake_response, send_handshake_response, handle_handshake_request, or_close,
  with_reorder, handle_handshake_request_payload, mark_handshake_complete,
  handle_handshake_complete_payload, handle_data_message, handle_output_stream, handle_message,
  dispatch_message, dispatch_all, client_version, accepted_actions, with_flow,
  handle_channel_closed,
}

-- Every handshake response that was sent is the one that was saved, which there is only behind the
-- first request.
pub record IsAnswered (s : Session) : Type 0 where
  pub saved :
      All (λ m. m.payload_type ≡ payload_type_handshake_response → s.last_response ≡ some m) s.sent
  pub silent : s.handshake_responded ≡ false → s.last_response ≡ none

write_message-IsAnswered :
    (o : Option WriteError) (m : AgentMessage) (s : Session)
    → (m.payload_type ≡ payload_type_handshake_response → s.last_response ≡ some m)
    → IsAnswered s
    → IsAnswered (write_message o m s).1
unfolding write_message
write_message-IsAnswered none m s f v = record {
  saved = All-append _ s.sent (m ∷ []) v.saved (f, tt);
  silent = v.silent;
}
write_message-IsAnswered (some e) m s f v = v

close_session-IsAnswered :
    (r : CloseError) (s : Session) → IsAnswered s → IsAnswered (close_session r s)
unfolding close_session with_link
close_session-IsAnswered r s v = record { saved = v.saved; silent = v.silent }

or_close-IsAnswered :
    (r : CloseError) (o : Option SendError × Session) → IsAnswered o.1 → IsAnswered (or_close r o)
unfolding or_close
or_close-IsAnswered r (none, s) v = v
or_close-IsAnswered r (some e, s) v = close_session-IsAnswered r s v

module _ (x : External) (e : Turn) (orig : AgentMessage) where
  not_response :
      (ack : AgentMessage)
      → new_acknowledge_message x e.ack_id e.ack_created orig.message_type orig.message_id
          orig.sequence_number
        ≡ some ack
      → ¬ (ack.payload_type ≡ payload_type_handshake_response)
  unfolding new_acknowledge_message acknowledge_message
  not_response ack n h = ground (arith, n, h)

  send_ack-IsAnswered : (s : Session) → IsAnswered s → IsAnswered (send_ack x e orig s).1
  unfolding send_ack
  send_ack-IsAnswered s v =
      elim (Option-cases (
        new_acknowledge_message x e.ack_id e.ack_created orig.message_type orig.message_id
          orig.sequence_number)) [
            | inl n ↦ rw (n, send_ack) v
            | inr (ack, n) ↦
                rw (n, send_ack)
                  (write_message-IsAnswered e.ack_written ack s (λ h. absurd (not_response ack n h))
                    v)
          ]

  send_ack-responded :
      (s : Session) → (send_ack x e orig s).1.handshake_responded ≡ s.handshake_responded
  unfolding send_ack write_message
  send_ack-responded s = ground arith

  send_ack-last : (s : Session) → (send_ack x e orig s).1.last_response ≡ s.last_response
  unfolding send_ack write_message
  send_ack-last s = ground arith

  resend-IsAnswered : (s : Session) → IsAnswered s → IsAnswered (resend_handshake_response e s).1
  unfolding resend_handshake_response
  resend-IsAnswered s v = elim (Option-cases s.last_response) [
    | inl n ↦ rw (n, resend_handshake_response) v
    | inr (m, n) ↦
        rw (n, resend_handshake_response)
          (write_message-IsAnswered e.response_written m s (λ h. n) v)
  ]

  -- The first answer: none was saved, so that none was sent.
  send_response-IsAnswered :
      (s : Session)
      → s.last_response ≡ none
      → s.handshake_responded ≡ true
      → IsAnswered s
      → IsAnswered (send_handshake_response x e s).1
  unfolding send_handshake_response
  send_response-IsAnswered s l r v =
      elim (Option-cases (
        new_handshake_response_message x e.response_id e.response_created s.seq_num client_version
          accepted_actions)) [
            | inl n ↦
                rw (n, send_handshake_response) (record { saved = v.saved; silent = v.silent })
            | inr (m, n) ↦
                rw (n, send_handshake_response)
                  (write_message-IsAnswered e.response_written m _ (λ h. refl)
                    (record {
                      saved = All-imp _ _ s.sent (λ o f h. absurd (ground (arith, f h, l))) v.saved;
                      silent = λ h. absurd (ground (arith, h, r));
                    }))
          ]

  request-IsAnswered :
      (s : Session)
      → s.handshake_responded ≡ false
      → IsAnswered s
      → IsAnswered (handle_handshake_request x e orig s).1
  unfolding handle_handshake_request
  request-IsAnswered s h v = elim (Option-cases (send_ack x e orig t).0) [
    | inr (err, n) ↦ rw (n, handle_handshake_request) acked
    | inl n ↦
        rw (n, handle_handshake_request)
          (send_response-IsAnswered (send_ack x e orig t).1 (send_ack-last t ∙ v.silent h)
            (send_ack-responded t) acked)
  ]
    where
      t : Session
      t = record s { handshake_responded = true }

      acked : IsAnswered (send_ack x e orig t).1
      acked = send_ack-IsAnswered t (record { saved = v.saved; silent = λ z. v.silent h })

  request_payload-IsAnswered :
      (duplicate : Bool) (s : Session)
      → IsAnswered s
      → IsAnswered (handle_handshake_request_payload x e orig duplicate s)
  unfolding handle_handshake_request_payload with_reorder
  request_payload-IsAnswered duplicate s v =
      if_both IsAnswered (duplicate || s.handshake_responded) _ _
        (λ b. elim (Option-cases (send_ack x e orig s).0) [
          | inr (err, n) ↦ rw n (close_session-IsAnswered _ _ (send_ack-IsAnswered s v))
          | inl n ↦ rw n (or_close-IsAnswered _ _ (resend-IsAnswered _ (send_ack-IsAnswered s v)))
        ])
        (λ b. elim (Option-cases (handle_handshake_request x e orig s).0) [
          | inr (err, n) ↦
              rw n (close_session-IsAnswered _ _ (request-IsAnswered s (ground (arith, b)) v))
          | inl n ↦ rw n (same _ (request-IsAnswered s (ground (arith, b)) v))
        ])
    where
      same :
          (t : Session)
          → IsAnswered t
          → IsAnswered (record t { reorder = update_expected_seq_num orig t.reorder })
      same t w = record { saved = w.saved; silent = w.silent }

  completed-IsAnswered :
      (s : Session)
      → IsAnswered s
      → IsAnswered (
          if (mark_handshake_complete s).0
          then with_reorder (update_expected_seq_num orig) (mark_handshake_complete s).1
          else (mark_handshake_complete s).1)
  unfolding mark_handshake_complete with_reorder
  completed-IsAnswered s v =
      if_both {A = Bool × Session}
        (λ r.
          IsAnswered (
            if r.0 then record r.1 { reorder = update_expected_seq_num orig r.1.reorder } else r.1))
        s.handshake_complete _ _ (λ b. v) (λ b. record { saved = v.saved; silent = v.silent })

  complete-IsAnswered :
      (s : Session) → IsAnswered s → IsAnswered (handle_handshake_complete_payload x e orig s)
  unfolding handle_handshake_complete_payload
  complete-IsAnswered s v =
      or_close-IsAnswered _ _ (send_ack-IsAnswered _ (completed-IsAnswered s v))

  data-IsAnswered : (s : Session) → IsAnswered s → IsAnswered (handle_data_message x e orig s)
  unfolding handle_data_message with_reorder
  data-IsAnswered s v = elim (Option-cases (send_ack x e orig s).0) [
    | inr (err, n) ↦
        rw (n, handle_data_message)
          (close_session-IsAnswered _ (send_ack x e orig s).1 (send_ack-IsAnswered s v))
    | inl n ↦ rw (n, handle_data_message) (same _ (send_ack-IsAnswered s v))
  ]
    where
      same :
          (t : Session)
          → IsAnswered t
          → IsAnswered (record t { reorder = order_message orig t.reorder })
      same t w = record { saved = w.saved; silent = w.silent }

  stream-IsAnswered :
      (duplicate : Bool) (s : Session)
      → IsAnswered s
      → IsAnswered (handle_output_stream x e orig duplicate s)
  unfolding handle_output_stream
  stream-IsAnswered duplicate s v =
      if_both IsAnswered (orig.payload_type == payload_type_handshake_request) _ _
        (λ b. request_payload-IsAnswered duplicate s v)
        (λ b.
          if_both IsAnswered (orig.payload_type == payload_type_handshake_complete) _ _
            (λ c. complete-IsAnswered s v) (λ c. data-IsAnswered s v))

  closed-IsAnswered : (s : Session) → IsAnswered s → IsAnswered (handle_channel_closed s)
  unfolding handle_channel_closed with_link
  closed-IsAnswered s v = record { saved = v.saved; silent = v.silent }

  message-IsAnswered :
      (duplicate : Bool) (s : Session)
      → IsAnswered s
      → IsAnswered (handle_message x e orig duplicate s).1
  unfolding handle_message with_flow
  message-IsAnswered duplicate s v =
      ite_both P (bytes_discrete orig.message_type msg_type_output_stream_data) _ _
        (stream-IsAnswered duplicate s v)
        (ite_both P (bytes_discrete orig.message_type msg_type_acknowledge) _ _
          (record { saved = v.saved; silent = v.silent })
          (ite_both P (bytes_discrete orig.message_type msg_type_pause_publication) _ _
            (record { saved = v.saved; silent = v.silent })
            (ite_both P (bytes_discrete orig.message_type msg_type_start_publication) _ _
              (record { saved = v.saved; silent = v.silent })
              (ite_both P (bytes_discrete orig.message_type msg_type_channel_closed) _ _
                (closed-IsAnswered s v) v))))
    where
      P : Bool × Session → Type 0
      P r = IsAnswered r.1

  dispatch_message-IsAnswered :
      (s : Session) → IsAnswered s → IsAnswered (dispatch_message x e orig s).1
  unfolding dispatch_message
  dispatch_message-IsAnswered s v =
      message-IsAnswered _ _ (record { saved = v.saved; silent = v.silent })

-- However often requests for a handshake come, and whatever else comes, every handshake response
-- that the adapter sends is the same message, its number and id with it.
pub dispatch_all-IsAnswered :
    (x : External) (ms : List (Turn × AgentMessage)) (s : Session)
    → IsAnswered s
    → IsAnswered (dispatch_all x ms s)
unfolding dispatch_all
dispatch_all-IsAnswered x [] s v = v
dispatch_all-IsAnswered x ((e, m) ∷ ms) s v = elim (Bool-cases (dispatch_message x e m s).0) [
  | inl on ↦
      rw (on, dispatch_all) (dispatch_all-IsAnswered x ms _ (dispatch_message-IsAnswered x e m s v))
  | inr off ↦ rw (off, dispatch_all) (dispatch_message-IsAnswered x e m s v)
]
