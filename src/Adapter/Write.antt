-- ===== src/Adapter/Write.antt =====
-- Write of internal/protocol/adapter.go with all that it waits for: waitForPublication, the loop
-- of addOutgoing, writeRaw and waitUntilConnected. What it meets each time that it looks is an
-- argument; where these end before it does, it still waits.
pub mod Exact
pub mod Returns
pub mod Gap
use session_proxy.Prelude.{
  ℕ, zero, suc, ◌+◌, ◌*◌, ◌<◌, ◌≤◌, ◌≡◌, refl, Bool, true, false, not, ◌&&◌, List, [], ◌∷◌, ◌++◌,
  Option, none, some, arith, ltb, length, take, drop, min, if◌then◌else◌,
}
use session_proxy.Prelude.Bytes.{Byte, Bytes}
use session_proxy.Prelude.Int64.{Int64, slt, inc}
use session_proxy.Message.{External, AgentMessage, new_input_message}
use session_proxy.Message.Encode.{marshal_binary}
use session_proxy.Adapter.Outgoing.{
  Outgoing, Added, added, closed_pipe, timed_out, wait, add_outgoing, drop_outgoing,
}

abbrev pub default_stream_chunk_size : ℕ
default_stream_chunk_size = 1024

-- io.ErrClosedPipe, timeoutError, and the errors of the WebSocket.
pub data WriteError : Type 0 where
  pipe_closed : WriteError
  deadline_passed : WriteError
  transport : WriteError

pub data Outcome : Type 0 where
  passed : Outcome
  failed : WriteError → Outcome
  waiting : Outcome

-- What one round of waitForPublication or waitUntilConnected finds: whether it is shut, whether a
-- channel is there, and how the sleep or the wait ends. `stopped` is the done channel.
pub record Gate : Type 0 where
  pub stopped : Bool
  pub shut : Bool
  pub has_channel : Bool
  pub slept : Option WriteError
  pub signalled : Option WriteError

-- waitForPublication
unfoldable pub wait_for_publication : List Gate → Outcome
wait_for_publication [] = waiting
wait_for_publication (g ∷ gs) =
    let rest = wait_for_publication gs in
    if not g.shut
    then passed
    else elim (if g.has_channel then g.signalled else g.slept) [ none ↦ rest | some e ↦ failed e ]

-- waitUntilConnected
unfoldable pub wait_until_connected : List Gate → Outcome
wait_until_connected [] = waiting
wait_until_connected (g ∷ gs) =
    let rest = wait_until_connected gs in
    if g.stopped
    then failed pipe_closed
    else if not g.shut
    then passed
    else elim (if g.has_channel then g.signalled else g.slept) [ none ↦ rest | some e ↦ failed e ]

-- What one round of the loop of writeRaw finds. `closing` is what handleTransportFailure returns.
pub record Attempt : Type 0 where
  pub gates : List Gate
  pub reconnecting : Bool
  pub has_conn : Bool
  pub write_error : Option WriteError
  pub closing : Bool

-- The part of a round under writeMu; none goes on with the loop.
unfoldable pub try_write : Attempt → Option Outcome
try_write a =
    if a.reconnecting
    then none
    else if not a.has_conn
    then some (failed pipe_closed)
    else elim a.write_error [
      | none ↦ some passed
      | some e ↦ if a.closing then some (failed e) else none
    ]

-- writeRaw; the frame is on the wire exactly where it passes.
unfoldable pub write_raw : List Attempt → Outcome
unfolding wait_until_connected try_write
write_raw [] = waiting
write_raw (a ∷ later) =
    let rest = write_raw later in
    elim (wait_until_connected a.gates) [
      | waiting ↦ waiting
      | failed e ↦ failed e
      | passed ↦ elim (try_write a) [ none ↦ rest | some o ↦ o ]
    ]

-- One pass of the loop of addOutgoing: the time, whether the deadline has passed, and what the
-- others do to the window before the next one.
pub record Pass : Type 0 where
  pub now : ℕ
  pub late : Bool
  pub meanwhile : Outgoing → Outgoing

pub data Room : Type 0 where
  room : Outgoing → Room
  no_room : WriteError → Outgoing → Room
  room_waits : Room

-- addOutgoing
unfoldable pub await_room : List Pass → Int64 → Bytes → Bytes → Outgoing → Room
await_room [] seq id frame w = room_waits
await_room (p ∷ ps) seq id frame w =
    let rest = await_room ps seq id frame (p.meanwhile w) in
    elim (add_outgoing p.now p.late seq id frame w) [
      | added v ↦ room v
      | closed_pipe ↦ no_room pipe_closed w
      | timed_out ↦ no_room deadline_passed w
      | wait ↦ rest
    ]

-- What Write meets on its way with one chunk. `id` and `created` are those of NewInputMessage.
pub record Round : Type 0 where
  pub gates : List Gate
  pub id : Bytes
  pub created : ℕ
  pub passes : List Pass
  pub attempts : List Attempt
  pub meanwhile : Outgoing → Outgoing

-- seqNum, the window, and the frames on the wire.
pub record Sender : Type 0 where
  pub seq_num : Int64
  pub window : Outgoing
  pub wire : List Bytes

-- nextSeq
unfoldable pub next_seq : Sender → Int64 × Sender
next_seq s = (s.seq_num, record s { seq_num = inc s.seq_num })

pub data Chunk : Type 0 where
  chunk_sent : Sender → Chunk
  chunk_failed : WriteError → Sender → Chunk
  chunk_waits : Chunk

-- The end of a round, when the frame is in the window `w`.
unfoldable pub send_tracked :
    Outcome → (Outgoing → Outgoing) → Int64 → Bytes → Bytes → Outgoing → Sender → Chunk
send_tracked passed meanwhile seq id frame w s =
    chunk_sent (record s { window = meanwhile w; wire = s.wire ++ (frame ∷ []) })
send_tracked (failed e) meanwhile seq id frame w s =
    chunk_failed e (record s { window = drop_outgoing seq id (meanwhile w) })
send_tracked waiting meanwhile seq id frame w s = chunk_waits

-- What follows addOutgoing.
unfoldable pub send_with_room : Room → Round → Int64 → Bytes → Sender → Chunk
unfolding send_tracked write_raw
send_with_room (room w) r seq frame s =
    send_tracked (write_raw r.attempts) r.meanwhile seq r.id frame w s
send_with_room (no_room e w) r seq frame s = chunk_failed e (record s { window = w })
send_with_room room_waits r seq frame s = chunk_waits

-- a.chunkSize, or the default.
unfoldable pub resolve_chunk_size : Int64 → ℕ
resolve_chunk_size c = if slt 0 c then c else default_stream_chunk_size

pub data Wrote : Type 0 where
  wrote : ℕ → Option WriteError → Sender → Wrote
  still_writing : Wrote

module _ (x : External) where
  abbrev pub frame_of : Round → Int64 → Bytes → Bytes
  frame_of r seq payload = marshal_binary x (new_input_message r.id r.created payload seq)

  -- One round of the loop of Write.
  unfoldable pub write_chunk : Round → Bytes → Sender → Chunk
  unfolding wait_for_publication next_seq await_room send_with_room
  write_chunk r payload s = elim (wait_for_publication r.gates) [
    | waiting ↦ chunk_waits
    | failed e ↦ chunk_failed e s
    | passed ↦
        let (seq, t) = next_seq s in
        let frame = frame_of r seq payload in
        send_with_room (await_room r.passes seq r.id frame t.window) r seq frame t
  ]

  -- The loop of Write.
  unfoldable pub write_loop : List Round → ℕ → Bytes → ℕ → Sender → Wrote
  unfolding write_chunk
  write_loop rs chunk [] total s = wrote total none s
  write_loop [] chunk (b ∷ bs) total s = still_writing
  write_loop (r ∷ rs) chunk (b ∷ bs) total s = elim (write_chunk r (take chunk (b ∷ bs)) s) [
    | chunk_waits ↦ still_writing
    | chunk_failed e t ↦ wrote total (some e) t
    | chunk_sent t ↦
        write_loop rs chunk (drop chunk (b ∷ bs)) (total + min chunk (length (b ∷ bs))) t
  ]

  -- Write
  unfoldable pub write : List Round → Int64 → Bytes → Sender → Wrote
  unfolding write_loop resolve_chunk_size
  write rs chunk_size b s = write_loop rs (resolve_chunk_size chunk_size) b 0 s
