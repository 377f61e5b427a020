-- ===== src/Message/Malformed.antt =====
-- UnmarshalMessage of internal/protocol/message.go on bytes that MarshalBinary did not write.
use session_proxy.Prelude.{
  ℕ, sym, ◌∙◌, ◌+◌, ◌-◌, ◌^◌, ◌<◌, ◌≤◌, ◌≡◌, ◌≢◌, refl, ◌⊎◌, ◌++◌, some, arith, length, length-take,
  length-append, length-drop, length-replicate, inl, inr, Bool-cases, ltb→lt, ltb→ge, ltb, take,
  drop, replicate,
}
use session_proxy.Prelude.Bytes.{Bytes, from_be}
use session_proxy.Message.{Header, AgentMessage, IsEncodable}
use session_proxy.Message.Encode.{encode_header, length-copy, length-encode_header}
use session_proxy.Message.Decode.{
  Reader, ◌>>=◌, pure, ok, too_short, unexpected_eof, panic, read_bytes, read_uint, read_header,
  read_payload, cut_payload, payload_offset, payload_end, unmarshal_message,
}
use session_proxy.Message.RoundTrip.{read_header-encode_header}

-- A reader that takes n bytes wherever there are so many.
record Reads {A : Type 0} (m : Reader A) (n : ℕ) : Type 0 where
  at :
      (r : Bytes)
      → n ≤ length r
      → (a : A) × (r' : Bytes) × (m r ≡ some (a, r')) × (length r' + n ≡ length r)

Reads-bytes : (n : ℕ) → Reads (read_bytes n) n
unfolding read_bytes
Reads-bytes n = record {
  at = λ r h. (take n r, drop n r, ground arith, omega (arith, length-drop n r));
}

Reads-uint : (k : ℕ) → Reads (read_uint k) k
unfolding read_uint
Reads-uint k = record {
  at = λ r h. let (b, r', e, l) = (Reads-bytes k).at r h in (from_be 0 b, r', rw (e, read_uint), l);
}

Reads-pure : {A : Type 0} (a : A) → Reads (pure a) 0
Reads-pure a = record { at = λ r h. (a, r, refl, omega arith) }

Reads-bind :
    {A B : Type 0} {m : Reader A} {f : A → Reader B} {n k : ℕ}
    → Reads m n
    → ((a : A) → Reads (f a) k)
    → Reads (m >>= f) (n + k)
Reads-bind {f = f} rm rf = record {
  at = λ r h.
      let (a, r', e, l) = rm.at r (omega arith) in
      let (b, r'', e', l') = (rf a).at r' (omega arith) in (b, r'', rw (e, ◌>>=◌) e', omega arith);
}

read_header_total : Reads read_header 120
unfolding read_header
read_header_total = Reads-bind (Reads-uint 4) λ hl. Reads-bind (Reads-bytes 32) λ ty.
    Reads-bind (Reads-uint 4) λ sv. Reads-bind (Reads-uint 8) λ cd. Reads-bind (Reads-uint 8) λ sn.
      Reads-bind (Reads-uint 8) λ fl. Reads-bind (Reads-bytes 8) λ lsb.
        Reads-bind (Reads-bytes 8) λ msb.
          Reads-bind (Reads-bytes 32)
            λ pd. Reads-bind (Reads-uint 4) λ pt. Reads-bind (Reads-uint 4) λ pl. Reads-pure _

-- What bytes may come out as: too short below 120 bytes; else a header is read, and the outcome
-- is that of the bounds of the payload.
abbrev pub Answer : Bytes → Type 0
Answer bytes =
    ((length bytes < 120) × (unmarshal_message bytes ≡ too_short))
    ⊎ ((h : Header) × (rest : Bytes) × (120 ≤ length bytes)
        × (read_header bytes ≡ some (h, rest))
        × (unmarshal_message bytes ≡ read_payload bytes h))

unmarshal_message-Answer : (bytes : Bytes) → Answer bytes
unfolding unmarshal_message
unmarshal_message-Answer bytes = elim (Bool-cases (ltb (length bytes) 120)) [
  | inl short ↦ inl (ltb→lt _ _ short, rw short)
  | inr long ↦
      let (h, rest, e, _) = read_header_total.at bytes (ltb→ge _ _ long) in
      inr (h, rest, ltb→ge _ _ long, e, rw (long, e, unmarshal_message))
]

read_payload-ne-eof : (bytes : Bytes) (h : Header) → read_payload bytes h ≢ unexpected_eof
unfolding read_payload cut_payload
read_payload-ne-eof bytes h e = ground arith

cut_payload-ok :
    (bytes : Bytes) (h : Header) (low high : ℕ) (m : AgentMessage)
    → high ≤ low + h.payload_length
    → cut_payload bytes h low high ≡ ok m
    → (m.header ≡ h) × (length m.payload ≡ h.payload_length) × (low ≤ high) × (high ≤ length bytes)
unfolding cut_payload
cut_payload-ok bytes h low high m sum e = ground (
  arith,
  length-copy (replicate h.payload_length 0) (take (high - low) (drop low bytes)),
  length-replicate {A = ℕ} h.payload_length 0,
  length-take (high - low) (drop low bytes),
)

unmarshal_message-ne-eof : (bytes : Bytes) → unmarshal_message bytes ≢ unexpected_eof
unmarshal_message-ne-eof bytes e = elim (unmarshal_message-Answer bytes) [
  | inl (_, short) ↦ cc
  | inr (h, rest, _, _, answer) ↦ read_payload-ne-eof bytes h (cc)
]

length-payload :
    (bytes : Bytes) (m : AgentMessage)
    → unmarshal_message bytes ≡ ok m
    → (length m.payload ≡ m.payload_length)
      × (payload_offset m.header ≤ payload_end m.header)
      × (payload_end m.header ≤ length bytes)
length-payload bytes m e = elim (unmarshal_message-Answer bytes) [
  | inl (_, short) ↦ cc
  | inr (h, rest, _, _, answer) ↦
      let (same, size, low, high) =
        cut_payload-ok bytes h (payload_offset h) (payload_end h) m (omega arith)
          (unfold read_payload in sym answer ∙ e) in
      rw same (size, low, high)
]

-- No frame is refused by one of the reads behind the length check. An accepted frame has exactly
-- as many bytes of payload as its header announces, and its slice lies within the frame, its
-- bounds in order.
unmarshal_message_reads :
    (bytes : Bytes)
    → (unmarshal_message bytes ≢ unexpected_eof)
      × ((m : AgentMessage)
          → unmarshal_message bytes ≡ ok m
          → (length m.payload ≡ m.payload_length)
            × (payload_offset m.header ≤ payload_end m.header)
            × (payload_end m.header ≤ length bytes))
unmarshal_message_reads bytes = (unmarshal_message-ne-eof bytes, length-payload bytes)

-- Offset and length are added in 32 bits. Where the sum wraps to a number of bytes that the frame
-- has, the check passes and the slice panics.
pub unmarshal_message_panics :
    (h : Header) (rest : Bytes)
    → IsEncodable h
    → length h.payload_digest ≡ 32
    → h.payload_length < 2 ^ 32
    → h.header_length + 4 < 2 ^ 32
    → 2 ^ 32 ≤ h.header_length + 4 + h.payload_length
    → h.header_length + 4 + h.payload_length ≤ 2 ^ 32 + 120 + length rest
    → 120 + length rest < 2 ^ 32
    → unmarshal_message (encode_header h ++ rest) ≡ panic
unfolding unmarshal_message read_payload cut_payload
unmarshal_message_panics h rest e d p off wraps inside short = ground (
  arith,
  length-append (encode_header h) rest,
  length-encode_header h e d,
  read_header-encode_header h rest e d p,
)
