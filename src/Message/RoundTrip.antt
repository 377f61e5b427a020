-- ===== src/Message/RoundTrip.antt =====
-- MarshalBinary and UnmarshalMessage of internal/protocol/message.go against one another.
use session_proxy.Prelude.{
  ℕ, zero, suc, ◌+◌, ◌-◌, ◌^◌, ◌<◌, ◌≤◌, ◌≡◌, refl, ap, ◌∙◌, [], ◌∷◌, ◌++◌, some, arith, length,
  take, drop, replicate, length-append, length-take, length-drop, take_all, slice_suffix,
  take-append-drop, append_assoc,
}
use session_proxy.Prelude.Bytes.{Bytes}
use session_proxy.Message.{Header, AgentMessage, External, IsEncodable}
use session_proxy.Message.Encode.{
  copy, pad_type, encode_header, sealed, marshal_binary, length-pad_type, length-encode_header,
}
use session_proxy.Message.Decode.{
  ok, ◌>>=◌, trim_right, read_header, read_payload, unmarshal_message, read_payload_inside,
  read_bytes-append, read_uint-append,
}

trim_right_spaces : (k : ℕ) → trim_right (replicate k b' ') ≡ []
unfolding trim_right
trim_right_spaces zero = refl
trim_right_spaces (suc k) = ground (arith, trim_right_spaces k)

trim_right-append : (t : Bytes) (k : ℕ) → trim_right (t ++ replicate k b' ') ≡ trim_right t
unfolding trim_right
trim_right-append [] k = trim_right_spaces k
trim_right-append (b ∷ t) k = ground (arith, trim_right-append t k)

drop-replicate : (n k b : ℕ) → drop n (replicate k b) ≡ replicate (k - n) b
drop-replicate zero k b = ground arith
drop-replicate (suc n) zero b = ground arith
drop-replicate (suc n) (suc k) b = ground (arith, drop-replicate n k b)

-- Padding does not show after the trim.
trim_right-pad_type : (t : Bytes) → length t ≤ 32 → trim_right (pad_type t) ≡ trim_right t
unfolding pad_type copy
trim_right-pad_type t h =
    rw (take_all 32 t h, drop-replicate (length t) 32 b' ') (trim_right-append t (32 - length t))

-- What `read_header` makes of the bytes of `h`.
abbrev pub received : Header → Header
received h = record h { message_type = trim_right h.message_type }

halves : (id : Bytes) → length id ≡ 16 → take 8 id ++ take 8 (drop 8 id) ≡ id
halves id h = rw (take_all 8 (drop 8 id) (omega (arith, length-drop 8 id))) (take-append-drop 8 id)

pub read_header-encode_header :
    (h : Header) (rest : Bytes)
    → IsEncodable h
    → length h.payload_digest ≡ 32
    → h.payload_length < 2 ^ 32
    → read_header (encode_header h ++ rest) ≡ some (received h, rest)
unfolding read_header encode_header
read_header-encode_header h rest e d p = simp append_assoc (
    rw (
      read_uint-append 4 h.header_length _ (omega arith),
      read_bytes-append 32 (pad_type h.message_type) _ (length-pad_type h.message_type e.type_fits),
      read_uint-append 4 h.schema_version _ (omega arith),
      read_uint-append 8 h.created_date _ (omega arith),
      read_uint-append 8 h.sequence_number _ (omega arith),
      read_uint-append 8 h.flags _ (omega arith),
      read_bytes-append 8 (take 8 (drop 8 h.message_id)) _
          (omega (arith, length-take {0}, length-drop {0})),
      read_bytes-append 8 (take 8 h.message_id) _ (omega (arith, length-take {0})),
      read_bytes-append 32 h.payload_digest _ d,
      read_uint-append 4 h.payload_type _ (omega arith),
      read_uint-append 4 h.payload_length _ (omega arith),
      halves h.message_id (omega arith),
      trim_right-pad_type h.message_type e.type_fits,
      ◌>>=◌,
    ))

module _ (x : External) (m : AgentMessage) (e : IsEncodable m.header)
    (digest : length (x.sha256 m.payload) ≡ 32) where
  sealed-IsEncodable : IsEncodable (sealed x m)
  sealed-IsEncodable = ground arith

  header_bytes : length (encode_header (sealed x m)) ≡ 120
  header_bytes = length-encode_header (sealed x m) sealed-IsEncodable digest

  pub length-marshal_binary : length (marshal_binary x m) ≡ 120 + length m.payload
  unfolding marshal_binary
  length-marshal_binary =
      omega (arith, length-append (encode_header (sealed x m)) m.payload, header_bytes)

  read_payload-marshal_binary :
      m.header_length ≡ 116
      → 120 + length m.payload < 2 ^ 32
      → read_payload (marshal_binary x m) (received (sealed x m))
        ≡ ok (record { header = received (sealed x m); payload = m.payload })
  unfolding marshal_binary
  read_payload-marshal_binary hl fits =
      read_payload_inside (marshal_binary x m) (received (sealed x m))
        (omega (arith, length-marshal_binary)) (omega (arith, length-marshal_binary))
      ∙ ap (λ p. ok (record { header = received (sealed x m); payload = p }))
          (slice_suffix _ _ (encode_header (sealed x m)) m.payload (omega (arith, header_bytes))
            (omega arith))

  read_header-marshal_binary :
      120 + length m.payload < 2 ^ 32
      → read_header (marshal_binary x m) ≡ some (received (sealed x m), m.payload)
  unfolding marshal_binary
  read_header-marshal_binary fits =
      read_header-encode_header (sealed x m) m.payload sealed-IsEncodable digest (omega arith)

  -- A message whose fields fit their widths, with the header length that every constructor of the
  -- file sets and a payload that the frame can count, comes back from the wire as it was, but for
  -- the digest and the length, which are the payload's, and spaces and zeros at the type's end.
  pub unmarshal_message-marshal_binary :
      m.header_length ≡ 116
      → 120 + length m.payload < 2 ^ 32
      → unmarshal_message (marshal_binary x m)
        ≡ ok (record { header = received (sealed x m); payload = m.payload })
  unfolding unmarshal_message
  unmarshal_message-marshal_binary hl fits = ground (
    arith,
    length-marshal_binary,
    read_header-marshal_binary fits,
    read_payload-marshal_binary hl fits,
  )
