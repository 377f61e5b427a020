-- ===== src/Message/Encode.antt =====
-- AgentMessage.MarshalBinary of internal/protocol/message.go. The writes go to a bytes.Buffer,
-- which returns no error.
use session_proxy.Prelude.{
  ◌%◌, ◌^◌, ◌≤◌, ◌≡◌, ◌++◌, arith, length, take, drop, replicate, length-append, length-take,
  length-drop, take_all, drop_all, append-nil,
}
use session_proxy.Prelude.Bytes.{Bytes, be, length-be}
use session_proxy.Message.{Header, AgentMessage, External, IsEncodable}

-- copy(dst, src)
unfoldable pub copy : Bytes → Bytes → Bytes
copy dst src = take (length dst) src ++ drop (length src) dst

-- The type, padded with spaces to 32 bytes.
unfoldable pub pad_type : Bytes → Bytes
unfolding copy
pad_type t = copy (replicate 32 b' ') t

-- The fields in the order of the wire. The id goes out with its halves swapped.
unfoldable pub encode_header : Header → Bytes
encode_header h =
    be 4 h.header_length
    ++ (pad_type h.message_type
        ++ (be 4 h.schema_version
            ++ (be 8 h.created_date
                ++ (be 8 h.sequence_number
                    ++ (be 8 h.flags
                        ++ (take 8 (drop 8 h.message_id)
                            ++ (take 8 h.message_id
                                ++ (h.payload_digest
                                    ++ (be 4 h.payload_type ++ be 4 h.payload_length)))))))))

module _ (x : External) where
  -- The header that is written: digest and length are those of the payload.
  abbrev pub sealed : AgentMessage → Header
  sealed m = record m.header {
    payload_digest = x.sha256 m.payload;
    payload_length = length m.payload % 2 ^ 32;
  }

  unfoldable pub marshal_binary : AgentMessage → Bytes
  marshal_binary m = encode_header (sealed m) ++ m.payload

pub length-copy : (dst src : Bytes) → length src ≤ length dst → length (copy dst src) ≡ length dst
unfolding copy
length-copy dst src h = omega (
  arith,
  length-append (take (length dst) src) (drop (length src) dst),
  length-take (length dst) src,
  length-drop (length src) dst,
)

-- Copying over a buffer of the same length leaves the source.
pub copy_same : (dst src : Bytes) → length dst ≡ length src → copy dst src ≡ src
unfolding copy
copy_same dst src h =
    rw (take_all (length dst) src (omega arith), drop_all (length src) dst (omega arith))
      (append-nil src)

pub length-pad_type : (t : Bytes) → length t ≤ 32 → length (pad_type t) ≡ 32
unfolding pad_type
length-pad_type t h = length-copy (replicate 32 b' ') t h

pub length-encode_header :
    (h : Header) → IsEncodable h → length h.payload_digest ≡ 32 → length (encode_header h) ≡ 120
unfolding encode_header
length-encode_header h e d = omega (
  arith,
  length-append {0},
  length-be,
  length-pad_type h.message_type,
  length-take {0},
  length-drop {0},
)
