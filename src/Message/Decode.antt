-- ===== src/Message/Decode.antt =====
-- UnmarshalMessage of internal/protocol/message.go: a bytes.Reader is the list of the bytes left.
use session_proxy.Prelude.{
  ℕ, ◌+◌, ◌-◌, ◌%◌, ◌^◌, ◌<◌, ◌≤◌, ◌≡◌, Bool, true, false, ◌&&◌, ◌||◌, [], ◌∷◌, ◌++◌, Option, none,
  some, arith, ltb, ◌==◌, if◌then◌else◌, length, take, drop, replicate, length-append,
  length-replicate, ge→ltb, length-take, length-drop, take-append, drop-append,
}
use session_proxy.Prelude.Bytes.{Bytes, from_be, be, length-be, from_be-be}
use session_proxy.Message.{Header, AgentMessage, total_header_len, payload_length_len}
use session_proxy.Message.Encode.{copy, copy_same}

-- A function that may also panic, which Go does on a slice whose bounds are out of order.
pub data Outcome {ℓ} (A : Type ℓ) : Type ℓ where
  ok : A → Outcome A
  too_short : Outcome A
  unexpected_eof : Outcome A
  incomplete_payload : Outcome A
  panic : Outcome A

abbrev pub Reader : Type 0 → Type 0
Reader A = Bytes → Option (A × Bytes)

infixl 5 ◌>>=◌
abbrev pub ◌>>=◌ : {A B : Type 0} → Reader A → (A → Reader B) → Reader B
◌>>=◌ m f r = elim (m r) [ none ↦ none | some (a, r') ↦ f a r' ]

abbrev pub pure : {A : Type 0} → A → Reader A
pure a r = some (a, r)

-- binary.Read of an array of n bytes.
unfoldable pub read_bytes : ℕ → Bytes → Option (Bytes × Bytes)
read_bytes n r = if ltb (length r) n then none else some (take n r, drop n r)

-- binary.Read of an integer of k bytes.
unfoldable pub read_uint : ℕ → Bytes → Option (ℕ × Bytes)
read_uint k r = elim (read_bytes k r) [ none ↦ none | some (b, r') ↦ some (from_be 0 b, r') ]

is_empty : Bytes → Bool
is_empty [] = true
is_empty (b ∷ bs) = false

-- strings.TrimRight(s, "\x00 ")
unfoldable pub trim_right : Bytes → Bytes
unfolding is_empty
trim_right [] = []
trim_right (b ∷ bs) =
    let rest = trim_right bs in if (b == 0 || b == b' ') && is_empty rest then [] else b ∷ rest

unfoldable pub read_header : Bytes → Option (Header × Bytes)
read_header = do
  header_length ← read_uint 4
  type_bytes ← read_bytes 32
  schema_version ← read_uint 4
  created_date ← read_uint 8
  sequence_number ← read_uint 8
  flags ← read_uint 8
  lsb ← read_bytes 8
  msb ← read_bytes 8
  payload_digest ← read_bytes 32
  payload_type ← read_uint 4
  payload_length ← read_uint 4
  pure (record {
    header_length = header_length;
    message_type = trim_right type_bytes;
    schema_version = schema_version;
    created_date = created_date;
    sequence_number = sequence_number;
    flags = flags;
    message_id = msb ++ lsb;
    payload_digest = payload_digest;
    payload_type = payload_type;
    payload_length = payload_length;
  })

-- payloadOffset, and its sum with PayloadLength, as uint32.
abbrev pub payload_offset : Header → ℕ
payload_offset h = (h.header_length + payload_length_len) % 2 ^ 32

abbrev pub payload_end : Header → ℕ
payload_end h = (payload_offset h + h.payload_length) % 2 ^ 32

-- The slice data[low:high] panics where low > high; high is at most the length here.
unfoldable pub cut_payload : Bytes → Header → ℕ → ℕ → Outcome AgentMessage
cut_payload bytes h low high =
    if ltb (length bytes % 2 ^ 32) high
    then incomplete_payload
    else if ltb high low
    then panic
    else ok (record {
      header = h;
      payload = copy (replicate h.payload_length 0) (take (high - low) (drop low bytes));
    })

unfoldable pub read_payload : Bytes → Header → Outcome AgentMessage
read_payload bytes h = cut_payload bytes h (payload_offset h) (payload_end h)

unfoldable pub unmarshal_message : Bytes → Outcome AgentMessage
unmarshal_message bytes =
    if ltb (length bytes) total_header_len
    then too_short
    else elim (read_header bytes) [ none ↦ unexpected_eof | some (h, rest) ↦ read_payload bytes h ]

pub read_bytes-append :
    (n : ℕ) (xs ys : Bytes) → length xs ≡ n → read_bytes n (xs ++ ys) ≡ some (xs, ys)
unfolding read_bytes
read_bytes-append n xs ys h =
    ground (arith, length-append xs ys, take-append n xs ys, drop-append n xs ys)

pub read_uint-append :
    (k v : ℕ) (ys : Bytes) → v < 256 ^ k → read_uint k (be k v ++ ys) ≡ some (v, ys)
unfolding read_uint
read_uint-append k v ys h =
    rw (read_bytes-append k (be k v) ys (length-be k v), read_uint, from_be-be k v h)

-- A slice within the frame is what the payload becomes.
cut_payload_inside :
    (bytes : Bytes) (h : Header) (low high : ℕ)
    → high ≡ low + h.payload_length
    → high ≤ length bytes
    → length bytes < 2 ^ 32
    → cut_payload bytes h low high
      ≡ ok (record { header = h; payload = take h.payload_length (drop low bytes) })
unfolding cut_payload
cut_payload_inside bytes h low high sum inside short = rw (
  sum,
  ge→ltb (length bytes % 2 ^ 32) (low + h.payload_length) (omega arith),
  ge→ltb (low + h.payload_length) low (omega arith),
  same_length,
  copied,
)
  where
    same_length : low + h.payload_length - low ≡ h.payload_length
    same_length = omega arith

    copied :
        copy (replicate h.payload_length 0) (take h.payload_length (drop low bytes))
        ≡ take h.payload_length (drop low bytes)
    copied = copy_same (replicate h.payload_length 0) _ (
        omega
          (arith, length-replicate {A = ℕ} h.payload_length 0, length-take {0}, length-drop {0}))

pub read_payload_inside :
    (bytes : Bytes) (h : Header)
    → payload_offset h + h.payload_length ≤ length bytes
    → length bytes < 2 ^ 32
    → read_payload bytes h
      ≡ ok (record { header = h; payload = take h.payload_length (drop (payload_offset h) bytes) })
unfolding read_payload
read_payload_inside bytes h inside short =
    cut_payload_inside bytes h (payload_offset h) (payload_end h) (omega arith) (omega arith) short
