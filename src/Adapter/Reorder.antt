-- ===== src/Adapter/Reorder.antt =====
-- The incoming side of internal/protocol/adapter.go under incomingMsgBufMu: sequence numbers,
-- the buffer of messages that came early, and the pipe that SSH reads from.
pub mod Order
pub mod Delivery
pub mod Stuck
use session_proxy.Prelude.{
  ℕ, zero, suc, ◌<◌, ◌≤◌, ◌≡◌, Bool, true, false, ◌&&◌, List, [], ◌∷◌, ◌++◌, Option, none, some,
  arith, ◌==◌, if◌then◌else◌, length, ℕ_discrete,
}
use session_proxy.Prelude.Assoc.{lookup, delete, put}
use session_proxy.Prelude.Bytes.{Bytes}
use session_proxy.Prelude.Int64.{Int64, slt, inc}
use session_proxy.Message.{AgentMessage, payload_type_output}

-- expectedSeqNum, incomingMsgBuffer, and streamWriter as the bytes written while it was open.
pub record Reorder : Type 0 where
  pub expected : Int64
  pub buffer : List (Int64 × AgentMessage)
  pub stream : Bytes
  pub writer_open : Bool

-- processMessage: a write to a closed pipe fails, and the error is only logged.
unfoldable pub process_message : AgentMessage → Reorder → Reorder
process_message msg s =
    if msg.payload_type == payload_type_output && s.writer_open
    then record s { stream = s.stream ++ msg.payload }
    else s

-- expectedSeqNum++
unfoldable pub advance : Reorder → Reorder
advance s = record s { expected = inc s.expected }

-- One round of the loop of processBufferedMessages that finds its message.
unfoldable pub take_buffered : AgentMessage → Reorder → Reorder
unfolding process_message advance
take_buffered msg s =
    advance (process_message msg (record s { buffer = delete ℕ_discrete s.expected s.buffer }))

-- processBufferedMessages, on fuel: each round takes an entry out of the buffer.
unfoldable pub drain : ℕ → Reorder → Reorder
drain zero s = s
drain (suc fuel) s = elim (lookup ℕ_discrete s.expected s.buffer) [
  | none ↦ s
  | some msg ↦ drain fuel (take_buffered msg s)
]

unfoldable pub process_buffered_messages : Reorder → Reorder
process_buffered_messages s = drain (length s.buffer) s

-- handleDataMessage behind its acknowledgement.
unfoldable pub order_message : AgentMessage → Reorder → Reorder
order_message msg s =
    if msg.sequence_number == s.expected
    then process_buffered_messages (advance (process_message msg s))
    else if slt s.expected msg.sequence_number
    then record s { buffer = put ℕ_discrete msg.sequence_number msg s.buffer }
    else s

-- updateExpectedSeqNum
unfoldable pub update_expected_seq_num : AgentMessage → Reorder → Reorder
update_expected_seq_num msg s = record s { expected = inc msg.sequence_number }

-- What NewAdapter starts with.
abbrev pub initial : Int64 → Reorder
initial start = record { expected = start; buffer = []; stream = []; writer_open = true }

-- Messages one after the other, as dispatchMessage hands them on.
unfoldable pub feed : Reorder → List AgentMessage → Reorder
feed s [] = s
feed s (msg ∷ msgs) = feed (order_message msg s) msgs
