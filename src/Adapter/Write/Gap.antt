-- ===== src/Adapter/Write/Gap.antt =====
-- The sequence number of a Write of internal/protocol/adapter.go that found no room.
use session_proxy.Prelude.{
  ℕ, ◌+◌, ◌^◌, ◌<◌, ◌≡◌, refl, List, ◌∷◌, ◌++◌, Option, some, arith, All, length, take,
}
use session_proxy.Prelude.Bytes.{Byte, Bytes}
use session_proxy.Prelude.Int64.{Int64, inc}
use session_proxy.Message.{External}
use session_proxy.Adapter.Outgoing.{Outgoing}
use session_proxy.Adapter.Write.{
  WriteError, passed, no_room, Round, Sender, send_with_room, wrote, frame_of, write_chunk,
  write_loop, write, await_room, wait_for_publication, next_seq, resolve_chunk_size,
}
use session_proxy.Adapter.Write.Exact.{IsRound, Numbered, write-Exactly}

-- A Write whose first chunk finds no room.
pub record IsRefused (x : External) (r : Round) (payload : Bytes) (s : Sender) (e : WriteError)
    : Type 0 where
  pub published : wait_for_publication r.gates ≡ passed
  pub window : Outgoing
  pub found_no_room :
      await_room r.passes s.seq_num r.id (frame_of x r s.seq_num payload) s.window
      ≡ no_room e window

write_refused :
    (x : External) (r : Round) (rs : List Round) (chunk_size : Int64) (c : Byte) (b : Bytes)
    (s : Sender) (e : WriteError)
    → (k : IsRefused x r (take (resolve_chunk_size chunk_size) (c ∷ b)) s e)
    → write x (r ∷ rs) chunk_size (c ∷ b) s
      ≡ wrote 0 (some e) (record { seq_num = inc s.seq_num; window = k.window; wire = s.wire })
unfolding write write_loop write_chunk send_with_room next_seq
write_refused x r rs chunk_size c b s e k = ground (arith, k.published, k.found_no_room)

-- A Write that finds no room for its first frame, as behind its deadline, reports no byte and sends
-- nothing, but has used up its number: the Write behind it, of whatever bytes and whatever comes of
-- it, numbers its frames from the next one on.
pub write-gap :
    (x : External) (r : Round) (rs : List Round) (chunk_size : Int64) (c : Byte) (b : Bytes)
    (e : WriteError) (s : Sender)
    → ((a : Bytes) → length (x.sha256 a) ≡ 32)
    → 120 + resolve_chunk_size chunk_size < 2 ^ 32
    → IsRefused x r (take (resolve_chunk_size chunk_size) (c ∷ b)) s e
    → (t : Sender) × (write x (r ∷ rs) chunk_size (c ∷ b) s ≡ wrote 0 (some e) t)
      × (t.wire ≡ s.wire)
      × ((later : List Round) (d : Bytes) (n : ℕ) (f : Option WriteError) (u : Sender)
          → All IsRound later
          → write x later chunk_size d t ≡ wrote n f u
          → (payloads : List Bytes) × (frames : List Bytes) × (end : Int64) × (u.wire
              ≡ s.wire ++ frames)
            × Numbered (inc s.seq_num) payloads frames end)
write-gap x r rs chunk_size c b e s digest small k = (
  record { seq_num = inc s.seq_num; window = k.window; wire = s.wire },
  write_refused x r rs chunk_size c b s e k,
  refl,
  λ later d n f u i g.
      let v =
        write-Exactly x later chunk_size d n f
          (record { seq_num = inc s.seq_num; window = k.window; wire = s.wire }) u digest small i
          (omega arith) g in
      (v.payloads, v.frames, v.end, v.on_wire, v.numbered),
)
