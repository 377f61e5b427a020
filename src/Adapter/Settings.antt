-- ===== src/Adapter/Settings.antt =====
-- The settings that NewAdapter of internal/protocol/adapter.go takes from the environment.
-- strconv.Atoi and ParseInt are a parameter.
pub mod Resume
use session_proxy.Prelude.{
  ◌*◌, ◌^◌, ◌≤◌, ◌<◌, ◌≡◌, ◌&&◌, not, Option, none, some, arith, Option-cases, inl, inr,
  if◌then◌else◌,
}
use session_proxy.Prelude.Bytes.{Bytes, is_nil}
use session_proxy.Prelude.Int64.{Int64, slt}
use session_proxy.Adapter.Write.{default_stream_chunk_size, resolve_chunk_size}

abbrev pub min_stream_chunk_size : Int64
min_stream_chunk_size = 256

abbrev pub max_stream_chunk_size : Int64
max_stream_chunk_size = 1024

abbrev pub default_max_outgoing_unacked_bytes : Int64
default_max_outgoing_unacked_bytes = 256 * 1024

abbrev pub min_max_outgoing_unacked_bytes : Int64
min_max_outgoing_unacked_bytes = 64 * 1024

abbrev pub max_max_outgoing_unacked_bytes : Int64
max_max_outgoing_unacked_bytes = 1024 * 1024 * 1024

-- An override that is a number in its range, or else the default.
unfoldable pub override_in : (Bytes → Option Int64) → Int64 → Int64 → Int64 → Bytes → Int64
override_in parse low high default v = if is_nil v then default else elim (parse v) [
  | none ↦ default
  | some n ↦ if not (slt n low) && not (slt high n) then n else default
]

-- The value of SESSION_PROXY_SSM_CHUNK_SIZE.
unfoldable pub chunk_size_of : (Bytes → Option Int64) → Bytes → Int64
unfolding override_in
chunk_size_of parse v =
    override_in parse min_stream_chunk_size max_stream_chunk_size default_stream_chunk_size v

-- The value of SESSION_PROXY_SSM_MAX_UNACKED_BYTES.
unfoldable pub max_unacked_of : (Bytes → Option Int64) → Bytes → Int64
unfolding override_in
max_unacked_of parse v =
    override_in parse min_max_outgoing_unacked_bytes max_max_outgoing_unacked_bytes
      default_max_outgoing_unacked_bytes v

-- What strconv returns is an int64.
abbrev pub IsParser : (Bytes → Option Int64) → Type 0
IsParser parse = (v : Bytes) (n : Int64) → parse v ≡ some n → n < 2 ^ 64

override_in_range :
    (parse : Bytes → Option Int64) (low high default : Int64) (v : Bytes)
    → IsParser parse
    → high < 2 ^ 63
    → low ≤ default
    → default ≤ high
    → (low ≤ override_in parse low high default v) × (override_in parse low high default v ≤ high)
unfolding override_in
override_in_range parse low high default v p h a b = elim (Option-cases (parse v)) [
  | inl e ↦ ground (arith, e, a, b)
  | inr (n, e) ↦ ground (arith, e, p v n e, h, a, b)
]

-- Whatever the environment says, a chunk and the window have a size in their ranges.
pub settings_range :
    (parse : Bytes → Option Int64) (v w : Bytes)
    → IsParser parse
    → (256 ≤ resolve_chunk_size (chunk_size_of parse v))
      × (resolve_chunk_size (chunk_size_of parse v) ≤ 1024)
      × (65536 ≤ max_unacked_of parse w)
      × (max_unacked_of parse w ≤ 2 ^ 30)
unfolding chunk_size_of max_unacked_of resolve_chunk_size
settings_range parse v w p =
    let (a, b) =
      override_in_range parse 256 1024 1024 v p (omega arith) (omega arith) (omega arith) in
    let (c, d) =
      override_in_range parse 65536 1073741824 262144 w p (omega arith) (omega arith)
        (omega arith) in
    (ground (arith, a, b), ground (arith, a, b), c, d)
