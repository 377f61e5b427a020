-- ===== src/Adapter/Dispatch/Acks.antt =====
-- The acknowledgements of dispatchMessage of internal/protocol/adapter.go.
use session_proxy.Prelude.{
  ◌≡◌, refl, sym, subst, ap, ◌∙◌, Bool, true, false, ◌||◌, List, [], ◌∷◌, ◌++◌, Option, none, some,
  arith, if_both, if◌then◌else◌, ◌==◌, append_assoc, append-nil, Option-cases, inl, inr,
}
use mathlib.Core.Logic.{if_pos}
use session_proxy.Adapter.Write.{WriteError}
use session_proxy.Message.{
  External, AgentMessage, new_acknowledge_message, new_handshake_response_message,
  msg_type_output_stream_data, payload_type_handshake_request, payload_type_handshake_complete,
}
use session_proxy.Adapter.Seen.{mark_message_seen}
use session_proxy.Adapter.Lifecycle.{
  CloseError, close_with_error, close_adapter, set_close_reason, handshake_failed,
}
use session_proxy.Adapter.Reorder.{update_expected_seq_num}
use session_proxy.Adapter.Dispatch.{
  Session, Turn, SendError, close_session, with_link, write_message, send_ack,
  resend_handshake_response, send_handshake_response, handle_handshake_request, or_close,
  with_reorder, handle_handshake_request_payload, mark_handshake_complete,
  handle_handshake_complete_payload, handle_data_message, handle_output_stream, handle_message,
  dispatch_message, client_version, accepted_actions,
}

close_session-done : (e : CloseError) (s : Session) → (close_session e s).link.done ≡ true
unfolding close_session with_link close_with_error close_adapter set_close_reason
close_session-done e s = ground arith

module _ (x : External) (e : Turn) (orig : AgentMessage) where
  -- A later state has sent the acknowledgement of the message, first of what it sent more.
  pub record Acked (s t : Session) : Type 0 where
    pub ack : AgentMessage
    pub more : List AgentMessage
    pub made :
        new_acknowledge_message x e.ack_id e.ack_created orig.message_type orig.message_id
          orig.sequence_number
        ≡ some ack
    pub sent_first : t.sent ≡ s.sent ++ (ack ∷ more)

  -- The state is closed or has sent it.
  abbrev Settled : Session → Session → Type 0
  Settled s t = t.link.done ≡ false → Acked s t

  send_ack-Acked : (s : Session) → (send_ack x e orig s).0 ≡ none → Acked s (send_ack x e orig s).1
  unfolding send_ack write_message
  send_ack-Acked s h =
      elim (Option-cases (
        new_acknowledge_message x e.ack_id e.ack_created orig.message_type orig.message_id
          orig.sequence_number)) [
            | inl n ↦ absurd (ground (arith, n, h))
            | inr (ack, n) ↦ record {
              ack = ack;
              more = [];
              made = n;
              sent_first = ground (arith, n, h);
            }
          ]

  Acked-more :
      (s t u : Session) (more : List AgentMessage) → Acked s t → u.sent ≡ t.sent ++ more → Acked s u
  Acked-more s t u more a h = record {
    ack = a.ack;
    more = a.more ++ more;
    made = a.made;
    sent_first = h ∙ ap (λ l. l ++ more) a.sent_first ∙ append_assoc s.sent (a.ack ∷ a.more) more;
  }

  closed-Settled : (reason : CloseError) (s t : Session) → Settled s (close_session reason t)
  closed-Settled reason s t d = absurd (ground (arith, close_session-done reason t, d))

  or_close-Settled :
      (reason : CloseError) (s : Session) (o : Option SendError × Session)
      → (o.0 ≡ none → Acked s o.1)
      → Settled s (or_close reason o)
  unfolding or_close
  or_close-Settled reason s (none, t) f d = f refl
  or_close-Settled reason s (some err, t) f d = closed-Settled reason s t d

  -- What a write sends behind the acknowledgement.
  write_message-more :
      (o : Option WriteError) (msg : AgentMessage) (s t : Session)
      → Acked s t
      → Acked s (write_message o msg t).1
  unfolding write_message
  write_message-more none msg s t a = Acked-more s t _ (msg ∷ []) a refl
  write_message-more (some f) msg s t a = Acked-more s t _ [] a (sym (append-nil t.sent))

  resend-Acked : (s t : Session) → Acked s t → Acked s (resend_handshake_response e t).1
  unfolding resend_handshake_response
  resend-Acked s t a = elim (Option-cases t.last_response) [
    | inl n ↦ rw (n, resend_handshake_response) a
    | inr (msg, n) ↦
        rw (n, resend_handshake_response) (write_message-more e.response_written msg s t a)
  ]

  send_response-Acked : (s t : Session) → Acked s t → Acked s (send_handshake_response x e t).1
  unfolding send_handshake_response
  send_response-Acked s t a =
      elim (Option-cases (
        new_handshake_response_message x e.response_id e.response_created t.seq_num client_version
          accepted_actions)) [
            | inl n ↦
                rw (n, send_handshake_response) (Acked-more s t _ [] a (sym (append-nil t.sent)))
            | inr (msg, n) ↦
                rw (n, send_handshake_response)
                  (write_message-more e.response_written msg s _
                    (Acked-more s t _ [] a (sym (append-nil t.sent))))
          ]

  handle_data_message-Settled : (s : Session) → Settled s (handle_data_message x e orig s)
  unfolding handle_data_message with_reorder
  handle_data_message-Settled s = elim (Option-cases (send_ack x e orig s).0) [
    | inr (err, n) ↦ rw (n, handle_data_message) (closed-Settled _ s (send_ack x e orig s).1)
    | inl n ↦
        rw (n, handle_data_message)
          (λ d. Acked-more s (send_ack x e orig s).1 _ [] (send_ack-Acked s n) (sym (append-nil _)))
  ]

  Acked-from : (s u t : Session) → u.sent ≡ s.sent → Acked u t → Acked s t
  Acked-from s u t h a = record {
    ack = a.ack;
    more = a.more;
    made = a.made;
    sent_first = a.sent_first ∙ ap (λ l. l ++ (a.ack ∷ a.more)) h;
  }

  -- The session that handleHandshakeCompletePayload acknowledges from.
  completed : Session → Session
  completed s =
      let marked = mark_handshake_complete s in
      if marked.0 then with_reorder (update_expected_seq_num orig) marked.1 else marked.1

  completed_sent : (s : Session) → (completed s).sent ≡ s.sent
  unfolding completed mark_handshake_complete with_reorder
  completed_sent s = ground arith

  handle_handshake_complete-Settled :
      (s : Session) → Settled s (handle_handshake_complete_payload x e orig s)
  unfolding handle_handshake_complete_payload completed
  handle_handshake_complete-Settled s =
      or_close-Settled _ s (send_ack x e orig (completed s))
        (λ n. Acked-from s (completed s) _ (completed_sent s) (send_ack-Acked (completed s) n))

  again-Settled :
      (s : Session)
      → Settled s (elim (send_ack x e orig s).0 [
        | some err ↦ close_session handshake_failed (send_ack x e orig s).1
        | none ↦ or_close handshake_failed (resend_handshake_response e (send_ack x e orig s).1)
      ])
  again-Settled s = elim (Option-cases (send_ack x e orig s).0) [
    | inr (err, n) ↦ rw n (closed-Settled _ s (send_ack x e orig s).1)
    | inl n ↦ rw n (or_close-Settled _ s _ (λ f. resend-Acked s _ (send_ack-Acked s n)))
  ]

  handle_request-Acked :
      (s : Session)
      → (handle_handshake_request x e orig s).0 ≡ none
      → Acked s (handle_handshake_request x e orig s).1
  unfolding handle_handshake_request
  handle_request-Acked s h =
      elim (Option-cases (send_ack x e orig (record s { handshake_responded = true })).0) [
        | inr (err, n) ↦ absurd (ground (arith, n, h))
        | inl n ↦
            rw (n, handle_handshake_request)
              (Acked-from s (record s { handshake_responded = true }) _ refl
                (send_response-Acked _ _ (send_ack-Acked _ n)))
      ]

  first-Settled :
      (s : Session)
      → Settled s (elim (handle_handshake_request x e orig s).0 [
        | some err ↦ close_session handshake_failed (handle_handshake_request x e orig s).1
        | none ↦ with_reorder (update_expected_seq_num orig) (handle_handshake_request x e orig s).1
      ])
  unfolding with_reorder
  first-Settled s = elim (Option-cases (handle_handshake_request x e orig s).0) [
    | inr (err, n) ↦ rw n (closed-Settled _ s (handle_handshake_request x e orig s).1)
    | inl n ↦ rw n (λ d.
        Acked-more s (handle_handshake_request x e orig s).1 _ [] (handle_request-Acked s n)
          (sym (append-nil _)))
  ]

  handle_handshake_request-Settled :
      (duplicate : Bool) (s : Session)
      → Settled s (handle_handshake_request_payload x e orig duplicate s)
  unfolding handle_handshake_request_payload
  handle_handshake_request-Settled duplicate s =
      if_both (Settled s) (duplicate || s.handshake_responded) _ _ (λ b. again-Settled s)
        (λ b. first-Settled s)

  handle_output_stream-Settled :
      (duplicate : Bool) (s : Session) → Settled s (handle_output_stream x e orig duplicate s)
  unfolding handle_output_stream
  handle_output_stream-Settled duplicate s =
      if_both (Settled s) (orig.payload_type == payload_type_handshake_request) _ _
        (λ b. handle_handshake_request-Settled duplicate s)
        (λ b.
          if_both (Settled s) (orig.payload_type == payload_type_handshake_complete) _ _
            (λ c. handle_handshake_complete-Settled s) (λ c. handle_data_message-Settled s))

  -- The session behind markMessageSeen.
  abbrev pub noticed : Session → Session
  noticed s = record s {
    seen = (mark_message_seen orig.message_id orig.sequence_number s.seen).1;
    last_inbound = e.now;
  }

  pub dispatch_stream :
      (s : Session)
      → orig.message_type ≡ msg_type_output_stream_data
      → dispatch_message x e orig s ≡ (
        true,
        handle_output_stream x e orig
            (mark_message_seen orig.message_id orig.sequence_number s.seen).0
            (noticed s),
      )
  unfolding dispatch_message handle_message
  dispatch_stream s same = rw (if_pos _ same, dispatch_message) refl

  -- However a stream message comes, in order or not, again, or as a part of the handshake, the
  -- adapter has sent its acknowledgement, in front of whatever else it answers, unless it is closed
  -- behind it.
  pub dispatch_message-Acked :
      (s : Session)
      → orig.message_type ≡ msg_type_output_stream_data
      → (dispatch_message x e orig s).1.link.done ≡ false
      → Acked s (dispatch_message x e orig s).1
  dispatch_message-Acked s same d =
      let q = dispatch_stream s same in
      subst (λ r. Acked s r.1) (sym q)
        (Acked-from s (noticed s) _ refl (
          handle_output_stream-Settled
            (mark_message_seen orig.message_id orig.sequence_number s.seen).0 (noticed s)
            (subst (λ r. r.1.link.done ≡ false) q d)))
