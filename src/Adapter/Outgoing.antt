-- ===== src/Adapter/Outgoing.antt =====
-- The outgoing side of internal/protocol/adapter.go and adapter_resume.go under outgoingMu: what
-- was sent and not acknowledged. Instants and durations are nanoseconds; the instant 0 is Go's
-- zero time. They do not wrap.
pub mod Oldest
pub mod Window
pub mod Resend
use session_proxy.Prelude.{
  ℕ, zero, suc, ◌+◌, ◌-◌, ◌*◌, ◌<◌, ◌≤◌, ◌≡◌, ◌≢◌, Bool, true, false, ◌&&◌, ◌||◌, not, List, [],
  ◌∷◌, Option, none, some, ite, ltb, leb, ◌==◌, if◌then◌else◌, length, ℕ_discrete,
}
use session_proxy.Prelude.Assoc.{lookup, delete, put}
use session_proxy.Prelude.Bytes.{Bytes, bytes_discrete}
use session_proxy.Prelude.Int64.{Int64, slt, inc, add64, sub64, max_int64, minus_one}

abbrev pub millisecond : ℕ
millisecond = 1000000

abbrev pub default_retransmission_timeout : ℕ
default_retransmission_timeout = 200 * millisecond

abbrev pub max_retransmission_timeout : ℕ
max_retransmission_timeout = 1000 * millisecond

abbrev pub max_resend_attempts : ℕ
max_resend_attempts = 60

abbrev pub max_pause_time : ℕ
max_pause_time = 45000 * millisecond

pub record OutgoingMessage : Type 0 where
  pub msg_id : Bytes
  pub frame : Bytes
  pub last_sent : ℕ
  pub resend_count : ℕ

pub record Outgoing : Type 0 where
  pub messages : List (Int64 × OutgoingMessage)
  pub oldest : Int64
  pub bytes : Int64
  pub closed : Bool
  pub rto : ℕ
  pub max_bytes : Int64

-- What NewAdapter starts with, at its default limits.
abbrev pub initial : Outgoing
initial = record {
  messages = [];
  oldest = minus_one;
  bytes = 0;
  closed = false;
  rto = default_retransmission_timeout;
  max_bytes = 262144;
}

present : Int64 → List (Int64 × OutgoingMessage) → Bool
present k m = elim (lookup ℕ_discrete k m) [ none ↦ false | some om ↦ true ]

-- The scan for the smallest key, from the largest int64 down.
unfoldable pub min_key : Int64 → List (Int64 × OutgoingMessage) → Int64
min_key least [] = least
min_key least ((k, om) ∷ m) = min_key (if slt k least then k else least) m

-- At most `rounds` steps up to the next key that is there.
unfoldable pub scan : ℕ → Int64 → List (Int64 × OutgoingMessage) → Int64
unfolding present
scan zero oldest m = oldest
scan (suc rounds) oldest m =
    let further = scan rounds (inc oldest) m in
    if present (inc oldest) m then inc oldest else further

-- The timeout after a measured round trip.
unfoldable pub updated_rto : ℕ → OutgoingMessage → ℕ → ℕ
updated_rto now om rto =
    let rtt = now - om.last_sent in
    if not (om.last_sent == 0) && ltb 0 rtt
    then (if ltb (rtt * 2) default_retransmission_timeout
        then default_retransmission_timeout
        else if ltb max_retransmission_timeout (rtt * 2)
        then max_retransmission_timeout
        else rtt * 2)
    else rto

-- The next key behind `oldest`: the short scan, and the full one where it meets a gap.
unfoldable pub next_oldest : Int64 → List (Int64 × OutgoingMessage) → Int64
unfolding present
next_oldest oldest m =
    let next = scan 1024 oldest m in if present next m then next else min_key max_int64 m

-- The oldest pointer of ackOutgoing, when `seq` is gone and `m` is left.
unfoldable pub oldest_after_ack : Int64 → Int64 → List (Int64 × OutgoingMessage) → Int64
oldest_after_ack seq oldest [] = minus_one
oldest_after_ack seq oldest (e ∷ m) = if seq == oldest then next_oldest oldest (e ∷ m) else oldest

remove_acked : ℕ → Int64 → OutgoingMessage → Outgoing → Outgoing
unfolding updated_rto oldest_after_ack next_oldest scan min_key present
remove_acked now seq om s =
    let left = delete ℕ_discrete seq s.messages in
    record s {
      messages = left;
      bytes = sub64 s.bytes (length om.frame);
      oldest = oldest_after_ack seq s.oldest left;
      rto = updated_rto now om s.rto;
    }

-- ackOutgoing
unfoldable pub ack_outgoing : ℕ → Int64 → Bytes → Outgoing → Outgoing
unfolding remove_acked
ack_outgoing now seq msg_id s = elim (lookup ℕ_discrete seq s.messages) [
  | none ↦ s
  | some om ↦ ite (bytes_discrete om.msg_id msg_id) (remove_acked now seq om s) s
]

-- The oldest pointer of dropOutgoing.
unfoldable pub oldest_after_drop : Int64 → Int64 → List (Int64 × OutgoingMessage) → Int64
unfolding min_key
oldest_after_drop seq oldest [] = minus_one
oldest_after_drop seq oldest (e ∷ m) = if seq == oldest then min_key max_int64 (e ∷ m) else oldest

remove_dropped : Int64 → OutgoingMessage → Outgoing → Outgoing
unfolding oldest_after_drop
remove_dropped seq om s =
    let left = delete ℕ_discrete seq s.messages in
    record s {
      messages = left;
      bytes = sub64 s.bytes (length om.frame);
      oldest = oldest_after_drop seq s.oldest left;
    }

-- dropOutgoing
unfoldable pub drop_outgoing : Int64 → Bytes → Outgoing → Outgoing
unfolding remove_dropped
drop_outgoing seq msg_id s = elim (lookup ℕ_discrete seq s.messages) [
  | none ↦ s
  | some om ↦ ite (bytes_discrete om.msg_id msg_id) (remove_dropped seq om s) s
]

-- One pass of the loop of addOutgoing and what follows it. `wait` goes to the condition variable
-- and comes back with the state that it finds then.
pub data Added : Type 0 where
  added : Outgoing → Added
  closed_pipe : Added
  timed_out : Added
  wait : Added

new_oldest : Int64 → Int64 → Int64
new_oldest seq oldest = if oldest == minus_one || slt seq oldest then seq else oldest

abbrev pub sent_at : ℕ → Bytes → Bytes → OutgoingMessage
sent_at now msg_id frame = record {
  msg_id = msg_id;
  frame = frame;
  last_sent = now;
  resend_count = 0;
}

-- The entry that addOutgoing makes once there is room.
unfoldable pub track : ℕ → Int64 → Bytes → Bytes → Outgoing → Outgoing
unfolding new_oldest
track now seq msg_id frame s = record s {
  messages = put ℕ_discrete seq (sent_at now msg_id frame) s.messages;
  bytes = add64 s.bytes (length frame);
  oldest = new_oldest seq s.oldest;
}

unfoldable pub add_outgoing : ℕ → Bool → Int64 → Bytes → Bytes → Outgoing → Added
unfolding track
add_outgoing now deadline_exceeded seq msg_id frame s =
    if slt s.max_bytes (add64 s.bytes (length frame))
    then (if s.closed then closed_pipe else if deadline_exceeded then timed_out else wait)
    else if s.closed
    then closed_pipe
    else added (track now seq msg_id frame s)

mark_all : ℕ → List (Int64 × OutgoingMessage) → List (Int64 × OutgoingMessage)
mark_all at [] = []
mark_all at ((k, om) ∷ m) = (k, record om { last_sent = at; resend_count = 0 }) ∷ mark_all at m

-- markOutgoingForRetransmit
unfoldable pub mark_outgoing_for_retransmit : ℕ → Outgoing → Outgoing
unfolding mark_all
mark_outgoing_for_retransmit now s = record s {
  messages = mark_all (now - default_retransmission_timeout - millisecond) s.messages;
}
