-- ===== src/Adapter/Dispatch/Overtaken.antt =====
-- Data that comes before the end of the handshake in internal/protocol/adapter.go.
use session_proxy.Prelude.{
  ◌≡◌, ◌<◌, sym, subst, ap, ◌∙◌, true, false, List, none, some, arith, All, ℕ_discrete,
}
use session_proxy.Prelude.Assoc.{lookup, lookup-put}
use session_proxy.Prelude.Int64.{slt, inc, max_int64}
use session_proxy.Message.{
  External, AgentMessage, new_acknowledge_message, msg_type_output_stream_data, payload_type_output,
  payload_type_handshake_complete,
}
use session_proxy.Adapter.Reorder.{Reorder, order_message, update_expected_seq_num, feed}
use session_proxy.Adapter.Reorder.Stuck.{feed_above}
use session_proxy.Adapter.Dispatch.{
  Session, Turn, write_message, send_ack, or_close, with_reorder, mark_handshake_complete,
  handle_handshake_complete_payload, handle_data_message, handle_output_stream, dispatch_message,
}
use session_proxy.Adapter.Dispatch.Acks.{noticed, dispatch_stream}

-- The acknowledgement of a message is made and written.
pub record IsAckable (x : External) (e : Turn) (m : AgentMessage) : Type 0 where
  pub ack : AgentMessage
  pub made :
      new_acknowledge_message x e.ack_id e.ack_created m.message_type m.message_id m.sequence_number
      ≡ some ack
  pub written : e.ack_written ≡ none

module _ (x : External) where
  send_ack-reorder :
      (e : Turn) (m : AgentMessage) (s : Session)
      → IsAckable x e m
      → ((send_ack x e m s).0 ≡ none)
        × ((send_ack x e m s).1.reorder ≡ s.reorder)
        × ((send_ack x e m s).1.handshake_complete ≡ s.handshake_complete)
  unfolding send_ack write_message
  send_ack-reorder e m s a = ground (arith, a.made, a.written)

  data_reorder :
      (e : Turn) (m : AgentMessage) (s : Session)
      → m.message_type ≡ msg_type_output_stream_data
      → m.payload_type ≡ payload_type_output
      → IsAckable x e m
      → ((dispatch_message x e m s).1.reorder ≡ order_message m s.reorder)
        × ((dispatch_message x e m s).1.handshake_complete ≡ s.handshake_complete)
  unfolding handle_output_stream handle_data_message with_reorder
  data_reorder e m s t p a =
      let (n, r, h) = send_ack-reorder e m (noticed x e m s) a in
      rw (dispatch_stream x e m s t) (ground (arith, n, r, h, p))

  complete_reorder :
      (e : Turn) (m : AgentMessage) (s : Session)
      → m.message_type ≡ msg_type_output_stream_data
      → m.payload_type ≡ payload_type_handshake_complete
      → s.handshake_complete ≡ false
      → IsAckable x e m
      → (dispatch_message x e m s).1.reorder ≡ update_expected_seq_num m s.reorder
  unfolding handle_output_stream handle_handshake_complete_payload mark_handshake_complete or_close
      with_reorder
  complete_reorder e m s t p h a =
      let done : Session = record (noticed x e m s) {
        handshake_complete = true;
        reorder = update_expected_seq_num m s.reorder;
      } in
      let (n, r, _) = send_ack-reorder e m done a in
      rw (dispatch_stream x e m s t) (ground (arith, n, r, h, p))

overtaken_buffer :
    (m c : AgentMessage) (q : Reorder)
    → c.sequence_number ≡ q.expected
    → m.sequence_number ≡ inc q.expected
    → q.expected < max_int64
    → ((update_expected_seq_num c (order_message m q)).expected ≡ m.sequence_number)
      × (lookup ℕ_discrete m.sequence_number (update_expected_seq_num c (order_message m q)).buffer
          ≡ some m)
      × ((update_expected_seq_num c (order_message m q)).stream ≡ q.stream)
unfolding update_expected_seq_num order_message
overtaken_buffer m c q cn mn small = (
  ground (arith, cn, mn),
  ground (arith, mn, small, lookup-put ℕ_discrete m.sequence_number m.sequence_number m q.buffer),
  ground (arith, mn, small),
)

-- A data message that overtakes the end of the handshake is acknowledged and kept in the buffer,
-- and stays there: the end of the handshake makes its number the next one but does not look into
-- the buffer, and no message with a higher number does. The stream stands still.
pub overtaken-stuck :
    (x : External) (e f : Turn) (m c : AgentMessage) (ms : List AgentMessage) (s : Session)
    → m.message_type ≡ msg_type_output_stream_data
    → m.payload_type ≡ payload_type_output
    → c.message_type ≡ msg_type_output_stream_data
    → c.payload_type ≡ payload_type_handshake_complete
    → c.sequence_number ≡ s.reorder.expected
    → m.sequence_number ≡ inc s.reorder.expected
    → s.reorder.expected < max_int64
    → s.handshake_complete ≡ false
    → IsAckable x e m
    → IsAckable x f c
    → All (λ o. slt m.sequence_number o.sequence_number ≡ true) ms
    → let t = (dispatch_message x f c (dispatch_message x e m s).1).1.reorder in
      (t.expected ≡ m.sequence_number)
      × (lookup ℕ_discrete t.expected t.buffer ≡ some m)
      × ((feed t ms).stream ≡ s.reorder.stream)
overtaken-stuck x e f m c ms s mt mp ct cp cn mn small h a b above =
    let (d, k) = data_reorder x e m s mt mp a in
    let q =
      complete_reorder x f c (dispatch_message x e m s).1 ct cp (k ∙ h) b
      ∙ ap (update_expected_seq_num c) d in
    let (n, l, w) = overtaken_buffer m c s.reorder cn mn small in
    subst
      (λ t.
        (t.expected ≡ m.sequence_number)
        × (lookup ℕ_discrete t.expected t.buffer ≡ some m)
        × ((feed t ms).stream ≡ s.reorder.stream))
      (sym q)
      (
        n,
        subst
            (λ i.
              lookup ℕ_discrete i (update_expected_seq_num c (order_message m s.reorder)).buffer
              ≡ some m)
            (sym n) l,
        (feed_above ms (update_expected_seq_num c (order_message m s.reorder))
              (subst (λ i. All (λ o. slt i o.sequence_number ≡ true) ms) (sym n) above)).0
            ∙ w,
      )
