-- ===== src/Adapter/Write/Exact.antt =====
-- What Write of internal/protocol/adapter.go puts on the wire.
use session_proxy.Prelude.{
  ℕ, ◌+◌, ◌^◌, ◌<◌, ◌≤◌, ◌≡◌, refl, sym, subst, ap, ◌∙◌, List, [], ◌∷◌, ◌++◌, Option, none, arith,
  All, length, take, drop, min, append_assoc, append-nil, length-take, take-append-drop,
  length-append,
}
use session_proxy.Prelude.Bytes.{Bytes}
use session_proxy.Prelude.Int64.{Int64, inc}
use session_proxy.Message.{
  External, IsEncodable, AgentMessage, msg_type_input_stream_data, new_input_message,
}
use session_proxy.Message.Encode.{sealed}
use session_proxy.Message.Decode.{ok, trim_right, unmarshal_message}
use session_proxy.Message.RoundTrip.{received, unmarshal_message-marshal_binary}
use session_proxy.Adapter.Write.{
  WriteError, Round, Sender, Chunk, chunk_sent, chunk_failed, chunk_waits, send_tracked,
  send_with_room, wrote, frame_of, write_chunk, write_loop, write, next_seq, resolve_chunk_size,
}

-- concat
abbrev pub joined : List Bytes → Bytes
joined [] = []
joined (p ∷ ps) = p ++ joined ps

-- A frame that UnmarshalMessage reads as input under this number.
pub record Carries (seq : Int64) (payload frame : Bytes) : Type 0 where
  pub message : AgentMessage
  pub decoded : unmarshal_message frame ≡ ok message
  pub its_payload : message.payload ≡ payload
  pub its_number : message.sequence_number ≡ seq
  pub its_type : message.message_type ≡ msg_type_input_stream_data

-- Frames with these payloads, numbered from the first number up to the second.
pub data Numbered : Int64 → List Bytes → List Bytes → Int64 → Type 0 where
  numbered_none : {seq : Int64} → Numbered seq [] [] seq
  numbered_one :
      {seq end : Int64} {payload frame : Bytes} {payloads frames : List Bytes}
      → Carries seq payload frame
      → Numbered (inc seq) payloads frames end
      → Numbered seq (payload ∷ payloads) (frame ∷ frames) end

-- What NewInputMessage of the round needs to be encodable.
pub record IsRound (r : Round) : Type 0 where
  pub id_length : length r.id ≡ 16
  pub created_fits : r.created < 2 ^ 64

module _ (x : External) where
  pub new_input-IsEncodable :
      (r : Round) (seq : Int64) (payload : Bytes)
      → IsRound r
      → seq < 2 ^ 64
      → IsEncodable (new_input_message r.id r.created payload seq).header
  unfolding new_input_message
  new_input-IsEncodable r seq payload i s = omega (arith, i.id_length, i.created_fits)

  frame_of-Carries :
      (r : Round) (seq : Int64) (payload : Bytes)
      → IsRound r
      → length (x.sha256 payload) ≡ 32
      → seq < 2 ^ 64
      → 120 + length payload < 2 ^ 32
      → Carries seq payload (frame_of x r seq payload)
  unfolding new_input_message trim_right
  frame_of-Carries r seq payload i digest s fits = record {
    message = record {
      header = received (sealed x (new_input_message r.id r.created payload seq));
      payload = payload;
    };
    decoded =
        unmarshal_message-marshal_binary x (new_input_message r.id r.created payload seq)
          (new_input-IsEncodable r seq payload i s) digest refl fits;
    its_payload = refl;
    its_number = refl;
    its_type = refl;
  }

  write_chunk_sent :
      (r : Round) (p : Bytes) (s t : Sender)
      → write_chunk x r p s ≡ chunk_sent t
      → (t.wire ≡ s.wire ++ (frame_of x r s.seq_num p ∷ [])) × (t.seq_num ≡ inc s.seq_num)
  unfolding write_chunk send_with_room send_tracked next_seq
  write_chunk_sent r p s t h = ground (arith, h)

  write_chunk_failed :
      (r : Round) (p : Bytes) (e : WriteError) (s t : Sender)
      → write_chunk x r p s ≡ chunk_failed e t
      → t.wire ≡ s.wire
  unfolding write_chunk send_with_room send_tracked next_seq
  write_chunk_failed r p e s t h = ground (arith, h)

data WhichChunk (o : Chunk) : Type 0 where
  sends : (t : Sender) → o ≡ chunk_sent t → WhichChunk o
  fails : (e : WriteError) (t : Sender) → o ≡ chunk_failed e t → WhichChunk o
  waits : o ≡ chunk_waits → WhichChunk o

Chunk-cases : (o : Chunk) → WhichChunk o
Chunk-cases (chunk_sent t) = sends t refl
Chunk-cases (chunk_failed e t) = fails e t refl
Chunk-cases chunk_waits = waits refl

-- What a Write of `b` that returned did: the bytes that it reports are those of the frames, which
-- are the front of `b`.
pub record Exactly (chunk : ℕ) (b : Bytes) (total : ℕ) (s : Sender) (n : ℕ) (e : Option WriteError)
    (t : Sender) : Type 0 where
  pub payloads : List Bytes
  pub frames : List Bytes
  pub rest : Bytes
  pub end : Int64
  pub split : joined payloads ++ rest ≡ b
  pub reported : n ≡ total + length (joined payloads)
  pub on_wire : t.wire ≡ s.wire ++ frames
  pub numbered : Numbered s.seq_num payloads frames end
  pub sized : All (λ p. length p ≤ chunk) payloads
  pub complete : e ≡ none → (rest ≡ []) × (t.seq_num ≡ end)

module _ (x : External) (digest : (b : Bytes) → length (x.sha256 b) ≡ 32) (chunk : ℕ)
    (small : 120 + chunk < 2 ^ 32) where
  nothing_written :
      (b : Bytes) (total n : ℕ) (e : Option WriteError) (s t : Sender)
      → n ≡ total
      → t.wire ≡ s.wire
      → (e ≡ none → (b ≡ []) × (t.seq_num ≡ s.seq_num))
      → Exactly chunk b total s n e t
  nothing_written b total n e s t same w c = record {
    payloads = [];
    frames = [];
    rest = b;
    end = s.seq_num;
    split = refl;
    reported = same ∙ omega arith;
    on_wire = w ∙ sym (append-nil s.wire);
    numbered = numbered_none;
    sized = tt;
    complete = c;
  }

  one_more :
      (r : Round) (b : Bytes) (total n : ℕ) (e : Option WriteError) (s t u : Sender)
      → IsRound r
      → s.seq_num < 2 ^ 64
      → (t.wire ≡ s.wire ++ (frame_of x r s.seq_num (take chunk b) ∷ []))
        × (t.seq_num ≡ inc s.seq_num)
      → Exactly chunk (drop chunk b) (total + min chunk (length b)) t n e u
      → Exactly chunk b total s n e u
  one_more r b total n e s t u i fits (w, q) v = record {
    payloads = take chunk b ∷ v.payloads;
    frames = frame_of x r s.seq_num (take chunk b) ∷ v.frames;
    rest = v.rest;
    end = v.end;
    split =
        append_assoc (take chunk b) (joined v.payloads) v.rest
        ∙ ap (λ c. take chunk b ++ c) v.split
        ∙ take-append-drop chunk b;
    reported =
        omega (
          arith,
          v.reported,
          length-append (take chunk b) (joined v.payloads),
          length-take chunk b,
        );
    on_wire =
        v.on_wire
        ∙ ap (λ c. c ++ v.frames) w
        ∙ append_assoc s.wire (frame_of x r s.seq_num (take chunk b) ∷ []) v.frames;
    numbered =
        numbered_one
          (frame_of-Carries x r s.seq_num (take chunk b) i (digest _) fits
            (omega (arith, length-take chunk b, small)))
          (subst (λ k. Numbered k v.payloads v.frames v.end) q v.numbered);
    sized = (omega (arith, length-take chunk b), v.sized);
    complete = v.complete;
  }

  write_loop-Exactly :
      (rs : List Round) (b : Bytes) (total n : ℕ) (e : Option WriteError) (s t : Sender)
      → All IsRound rs
      → s.seq_num < 2 ^ 64
      → write_loop x rs chunk b total s ≡ wrote n e t
      → Exactly chunk b total s n e t
  unfolding write_loop
  write_loop-Exactly rs [] total n e s t i fits h =
      nothing_written [] total n e s t (ground (arith, h)) (ground (arith, h))
        (λ q. (refl, ground (arith, h)))
  write_loop-Exactly [] (c ∷ b) total n e s t i fits h = absurd (ground (arith, h))
  write_loop-Exactly (r ∷ rs) (c ∷ b) total n e s t i fits h =
      elim (Chunk-cases (write_chunk x r (take chunk (c ∷ b)) s)) [
        | waits q ↦ absurd (ground (arith, q, h))
        | fails f u q ↦
            nothing_written (c ∷ b) total n e s t (ground (arith, q, h))
              (ground (arith, q, h, write_chunk_failed x r (take chunk (c ∷ b)) f s u q))
              (λ g. absurd (ground (arith, q, h, g)))
        | sends u q ↦
            let sent = write_chunk_sent x r (take chunk (c ∷ b)) s u q in
            one_more r (c ∷ b) total n e s u t i.0 fits sent (
              write_loop-Exactly rs (drop chunk (c ∷ b)) _ n e u t i.1 (ground (arith, sent.1))
                (ground (arith, q, h)))
      ]

-- A Write that returned put whole frames on the wire, each read by UnmarshalMessage as input, with
-- consecutive numbers from the next one on. Their payloads are the bytes that it reports, the
-- front of what it was given, none longer than a chunk. Without an error these are all bytes, and
-- the next number is the one behind the last frame.
pub write-Exactly :
    (x : External) (rs : List Round) (chunk_size : Int64) (b : Bytes) (n : ℕ)
    (e : Option WriteError) (s t : Sender)
    → ((c : Bytes) → length (x.sha256 c) ≡ 32)
    → 120 + resolve_chunk_size chunk_size < 2 ^ 32
    → All IsRound rs
    → s.seq_num < 2 ^ 64
    → write x rs chunk_size b s ≡ wrote n e t
    → Exactly (resolve_chunk_size chunk_size) b 0 s n e t
unfolding write
write-Exactly x rs chunk_size b n e s t digest small i fits h =
    write_loop-Exactly x digest (resolve_chunk_size chunk_size) small rs b 0 n e s t i fits h
